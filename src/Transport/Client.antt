-- ===== src/Transport/Client.antt =====
-- `FifoClient::Impl` of src/fifo.cpp: the shell's ends of the two pipes.
use omni_sched.Base.{
  ℕ, Bytes, text, some, ◌++◌, ◌==◌, not, if◌then◌else◌, runtime_error, system_error, Result, ok,
  err, ◌>>◌,
}
use omni_sched.Transport.Paths.{FifoPaths}
use omni_sched.Transport.Server.{
  Node, missing, fifo, other, reads, writes, Ipc, close_descriptor, opened,
}

-- The calls of `open`.
pub record ClientCalls : Type 0 where
  pub open_requests : Result ℕ
  pub open_responses : Result ℕ

-- `validate_fifo` with the path; the text of the error number is left out.
unfoldable pub validate_fifo : ℕ → Bytes → Node → Result (Unit {0})
validate_fifo uid path missing = err (system_error (text "IPC FIFO does not exist: " ++ path))
validate_fifo uid path other = err (runtime_error (text "IPC path is not a FIFO: " ++ path))
validate_fifo uid path (fifo owner) =
    if not (owner == uid)
    then err (runtime_error (text "IPC FIFO is owned by another user: " ++ path))
    else ok tt

-- The descriptor of the responses, to read, and that of the requests, to write.
unfoldable pub open_responses : ClientCalls → FifoPaths → ℕ → Ipc → Ipc × Result (ℕ × ℕ)
open_responses calls paths request ipc = elim (calls.open_responses) [
  | err error ↦ (close_descriptor (some request) ipc, err error)
  | ok response ↦ (opened response paths.responses reads ipc, ok (response, request))
]

unfoldable pub open_requests : ClientCalls → FifoPaths → Ipc → Ipc × Result (ℕ × ℕ)
open_requests calls paths ipc = elim (calls.open_requests) [
  | err error ↦ (ipc, err error)
  | ok request ↦ open_responses calls paths request (opened request paths.requests writes ipc)
]

unfoldable pub validate : ℕ → FifoPaths → Ipc → Result (Unit {0})
validate uid paths ipc = do
  validate_fifo uid paths.requests ipc.requests
  validate_fifo uid paths.responses ipc.responses

-- `FifoClient::Impl::Impl`, with the paths of its directory.
unfoldable pub connect : ℕ → ClientCalls → FifoPaths → Ipc → Ipc × Result (ℕ × ℕ)
connect uid calls paths ipc = elim (validate uid paths ipc) [
  | err error ↦ (ipc, err error)
  | ok done ↦ open_requests calls paths ipc
]

-- `Transport::~Transport`, with which the client ends.
unfoldable pub disconnect : ℕ × ℕ → Ipc → Ipc
disconnect (read_fd, write_fd) ipc =
    close_descriptor (some write_fd) (close_descriptor (some read_fd) ipc)
