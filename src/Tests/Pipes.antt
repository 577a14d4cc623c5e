-- ===== src/Tests/Pipes.antt =====
-- Servers and clients over the pipes of src/fifo.cpp, and a message in pieces.
use omni_sched.Base.{text, Bytes, true, false, none, [], ◌∷◌, refl, runtime_error, ok, err}
use omni_sched.Protocol.Message.{ProtocolMessage}
use omni_sched.Transport.Line.{received, would_block}
use omni_sched.Transport.Endpoint.{Inlet}
use omni_sched.Transport.Server.{
  CleanupCalls, reads_writes, missing, fifo, Ipc, CreateCalls, ServerCalls, construct,
}
use omni_sched.Transport.Paths.{fifo_paths}
use omni_sched.Transport.Client.{ClientCalls, connect}
use omni_sched.Transport.Making.{Holds}
use omni_sched.Transport.Held.{construct-Holds}
use omni_sched.Transport.Connected.{Connects, connect-Connects}

-- A stale FIFO of the user in place of the requests.
abbrev before : Ipc
before = record {
  requests = fifo 1000;
  responses = missing;
  locked = false;
  descriptors = record { number = 0; path = text "/dev/tty"; access = reads_writes } ∷ [];
}

abbrev calm : CreateCalls
calm = record { lstat = none; unlink = none; mkfifo = none }

-- The second pipe cannot be opened.
abbrev calls : ServerCalls
calls = record {
  directory = record {
    create = ok tt;
    lstat = ok tt;
    is_directory = true;
    is_link = false;
    owner = 1000;
    chmod = ok tt;
  };
  open_lock = ok 3;
  lock_is_safe = true;
  flock = true;
  create_requests = calm;
  create_responses = calm;
  open_requests = ok 4;
  open_responses = err (runtime_error (text "failed to open FIFO"));
  cleanup = record { unlink_requests = true; unlink_responses = false; unlock = true };
}

abbrev ending : CleanupCalls
ending = record { unlink_requests = true; unlink_responses = true; unlock = false }

construct-Holds_example :
    Holds 1000 calls.cleanup ending
      (fifo_paths (text "/run"))
      before
      (construct 1000 calls (fifo_paths (text "/run")) before)
construct-Holds_example = construct-Holds 1000 calls ending (fifo_paths (text "/run")) before refl

abbrev ready : Ipc
ready = record { requests = fifo 1000; responses = fifo 1000; locked = false; descriptors = [] }

abbrev opens : ClientCalls
opens = record { open_requests = ok 3; open_responses = ok 4 }

connect-Connects_example :
    Connects 1000
      (fifo_paths (text "/run"))
      ready
      (connect 1000 opens (fifo_paths (text "/run")) ready)
connect-Connects_example = connect-Connects 1000 opens (fifo_paths (text "/run")) ready

abbrev hello : ProtocolMessage
hello = record { request_id = 7; kind = text "OK"; fields = (b'h' ∷ []) ∷ [] }

-- The line of the message.
abbrev hello_line : Bytes
hello_line = text "KIPC1\t7\tOK\t68\n"

abbrev inlet : Inlet
inlet = record {
  reads = received (text "7\tOK\t68\n") ∷ received (text "KIPC1") ∷ would_block ∷ [];
  read_buffer = text "KIPC1\t";
}
