-- ===== src/Transport/Server.antt =====
-- The two ends of the pipes in src/fifo.cpp: `FifoServer::Impl`, `FifoClient::Impl` and what they are
-- made with, against the calls of the operating system.
use omni_sched.Base.{
  ℕ, Bytes, text, Bool, true, false, Option, none, some, List, [], ◌∷◌, ◌++◌, ◌||◌, ◌&&◌, ◌==◌, not,
  if◌then◌else◌, Error, runtime_error, Result, ok, err, ◌>>◌, guard,
}
use omni_sched.Transport.Paths.{FifoPaths, join_path}

-- What a path names: a FIFO with the user ID of its owner, or something else.
pub data Node : Type 0 where
  missing : Node
  fifo : ℕ → Node
  other : Node

-- How a descriptor was opened: O_RDONLY, O_WRONLY or O_RDWR.
pub data Access : Type 0 where
  reads writes reads_writes : Access

-- An open descriptor: its number and the path that `open` was called with.
pub record Descriptor : Type 0 where
  pub number : ℕ
  pub path : Bytes
  pub access : Access

-- What the program holds: what the two paths name, the lock, and the descriptors that are open.
pub record Ipc : Type 0 where
  pub requests : Node
  pub responses : Node
  pub locked : Bool
  pub descriptors : List Descriptor

unfoldable pub close : ℕ → List Descriptor → List Descriptor
close d [] = []
close d (x ∷ xs) = if x.number == d then xs else x ∷ close d xs

-- `close_descriptor`: -1 is `none`. The descriptor is gone whatever `close` returns.
unfoldable pub close_descriptor : Option ℕ → Ipc → Ipc
close_descriptor none ipc = ipc
close_descriptor (some d) ipc = record ipc { descriptors = close d ipc.descriptors }

-- `open` of a path gave a descriptor.
unfoldable pub opened : ℕ → Bytes → Access → Ipc → Ipc
opened d path access ipc = record ipc {
  descriptors = record { number = d; path = path; access = access } ∷ ipc.descriptors;
}

-- The exceptions of calls that fail: `lstat` otherwise than by ENOENT, `unlink` and `mkfifo`.
pub record CreateCalls : Type 0 where
  pub lstat : Option Error
  pub unlink : Option Error
  pub mkfifo : Option Error

unfoldable pub make_fifo : ℕ → CreateCalls → Node × Result (Unit {0})
make_fifo uid calls = elim (calls.mkfifo) [
  | some error ↦ (missing, err error)
  | none ↦ (fifo uid, ok tt)
]

unfoldable pub replace_stale : ℕ → CreateCalls → Node → Node × Result (Unit {0})
replace_stale uid calls node = elim (calls.unlink) [
  | some error ↦ (node, err error)
  | none ↦ make_fifo uid calls
]

unfoldable pub replace_inspected : ℕ → CreateCalls → Bytes → Node → Node × Result (Unit {0})
replace_inspected uid calls path missing = make_fifo uid calls
replace_inspected uid calls path other =
    (other, err (runtime_error (text "refusing to replace unsafe IPC path: " ++ path)))
replace_inspected uid calls path (fifo owner) =
    if not (owner == uid)
    then (fifo owner, err (runtime_error (text "refusing to replace unsafe IPC path: " ++ path)))
    else replace_stale uid calls (fifo owner)

unfoldable pub create_fifo : ℕ → CreateCalls → Bytes → Node → Node × Result (Unit {0})
create_fifo uid calls path node = elim (calls.lstat) [
  | some error ↦ (node, err error)
  | none ↦ replace_inspected uid calls path node
]

-- The directory: what `create_directories`, `lstat` and `chmod` throw, and what `lstat` says.
pub record DirectoryCalls : Type 0 where
  pub create : Result (Unit {0})
  pub lstat : Result (Unit {0})
  pub is_directory : Bool
  pub is_link : Bool
  pub owner : ℕ
  pub chmod : Result (Unit {0})

unfoldable pub prepare_directory : ℕ → DirectoryCalls → Result (Unit {0})
prepare_directory uid calls = do
  calls.create
  calls.lstat
  guard (not (not calls.is_directory || calls.is_link || not (calls.owner == uid)))
      (runtime_error (text "IPC directory is not a safe user-owned directory"))
  calls.chmod

-- `FifoServer::Impl`: the descriptors of its `Transport`, to read and to write, and of the lock.
pub record Server : Type 0 where
  pub transport : Option (ℕ × ℕ)
  pub lock_fd : Option ℕ

-- Which of the calls that give things back succeed: `unlink` of each path and `flock` with LOCK_UN. The
-- code does not look at what they return.
pub record CleanupCalls : Type 0 where
  pub unlink_requests : Bool
  pub unlink_responses : Bool
  pub unlock : Bool

-- The calls of the constructor: `open` of the lock and of the pipes gives a descriptor or throws,
-- `fstat` finds the lock safe or not, and `flock` takes it or not.
pub record ServerCalls : Type 0 where
  pub directory : DirectoryCalls
  pub open_lock : Result ℕ
  pub lock_is_safe : Bool
  pub flock : Bool
  pub create_requests : CreateCalls
  pub create_responses : CreateCalls
  pub open_requests : Result ℕ
  pub open_responses : Result ℕ
  pub cleanup : CleanupCalls

-- `unlink`, with whether it succeeds, if it is called.
unfoldable pub unlink_if : Bool → Bool → Node → Node
unlink_if called succeeds node = if called && succeeds then missing else node

-- `flock` with LOCK_UN and the end of the lock's descriptor, with which the lock is gone in any case.
unfoldable pub release : Bool → ℕ → Ipc → Ipc
release unlocks lock ipc =
    let unlocked : Ipc = if unlocks then record ipc { locked = false } else ipc in
    record (close_descriptor (some lock) unlocked) { locked = false }

-- The `catch` block: the exception goes on. No response descriptor is open in it.
unfoldable pub abandon :
    CleanupCalls → Option ℕ → Bool → Bool → ℕ → Error → Ipc → Ipc × Result Server
abandon calls request request_created response_created lock error ipc =
    let closed = close_descriptor request ipc in
    (
      release calls.unlock lock (record closed {
        requests = unlink_if request_created calls.unlink_requests closed.requests;
        responses = unlink_if response_created calls.unlink_responses closed.responses;
      }),
      err error,
    )

unfoldable pub open_responses : ServerCalls → FifoPaths → ℕ → ℕ → Ipc → Ipc × Result Server
open_responses calls paths lock request ipc = elim (calls.open_responses) [
  | err error ↦ abandon calls.cleanup (some request) true true lock error ipc
  | ok response ↦ (
    opened response paths.responses reads_writes ipc,
    ok (record { transport = some (request, response); lock_fd = some lock }),
  )
]

unfoldable pub open_requests : ServerCalls → FifoPaths → ℕ → Ipc → Ipc × Result Server
open_requests calls paths lock ipc = elim (calls.open_requests) [
  | err error ↦ abandon calls.cleanup none true true lock error ipc
  | ok request ↦
      open_responses calls paths lock request (opened request paths.requests reads_writes ipc)
]

unfoldable pub responses_created :
    ServerCalls → FifoPaths → ℕ → Node × Result (Unit {0}) → Ipc → Ipc × Result Server
responses_created calls paths lock (node, err error) ipc =
    abandon calls.cleanup none true false lock error (record ipc { responses = node })
responses_created calls paths lock (node, ok done) ipc =
    open_requests calls paths lock (record ipc { responses = node })

unfoldable pub requests_created :
    ℕ → ServerCalls → FifoPaths → ℕ → Node × Result (Unit {0}) → Ipc → Ipc × Result Server
requests_created uid calls paths lock (node, err error) ipc =
    abandon calls.cleanup none false false lock error (record ipc { requests = node })
requests_created uid calls paths lock (node, ok done) ipc =
    responses_created calls paths lock
      (create_fifo uid calls.create_responses paths.responses ipc.responses)
      (record ipc { requests = node })

-- The lock is open.
unfoldable pub lock_opened : ℕ → ServerCalls → FifoPaths → ℕ → Ipc → Ipc × Result Server
lock_opened uid calls paths lock ipc =
    if not calls.lock_is_safe
    then (
      close_descriptor (some lock) ipc,
      err (runtime_error (text "engine lock is not a safe user-owned file")),
    )
    else if not calls.flock
    then (
      close_descriptor (some lock) ipc,
      err (runtime_error (text "another Kronos engine is already using this IPC directory")),
    )
    else requests_created uid calls paths lock
        (create_fifo uid calls.create_requests paths.requests ipc.requests)
        (record ipc { locked = true })

unfoldable pub lock_path : FifoPaths → Bytes
lock_path paths = join_path paths.directory (text ".engine.lock")

unfoldable pub open_lock : ℕ → ServerCalls → FifoPaths → Ipc → Ipc × Result Server
open_lock uid calls paths ipc = elim (calls.open_lock) [
  | err error ↦ (ipc, err error)
  | ok lock ↦ lock_opened uid calls paths lock (opened lock (lock_path paths) reads_writes ipc)
]

-- `FifoServer::Impl::Impl`, with the paths of its directory.
unfoldable pub construct : ℕ → ServerCalls → FifoPaths → Ipc → Ipc × Result Server
construct uid calls paths ipc = elim (prepare_directory uid calls.directory) [
  | err error ↦ (ipc, err error)
  | ok done ↦ open_lock uid calls paths ipc
]

unfoldable pub close_transport : CleanupCalls → Option (ℕ × ℕ) → Ipc → Ipc
close_transport calls none ipc = ipc
close_transport calls (some (read_fd, write_fd)) ipc =
    let closed = close_descriptor (some write_fd) (close_descriptor (some read_fd) ipc) in
    record closed {
      requests = unlink_if true calls.unlink_requests closed.requests;
      responses = unlink_if true calls.unlink_responses closed.responses;
    }

unfoldable pub release_lock : CleanupCalls → Option ℕ → Ipc → Ipc
release_lock calls none ipc = ipc
release_lock calls (some lock) ipc = release calls.unlock lock ipc

-- `FifoServer::Impl::~Impl`.
unfoldable pub destroy : CleanupCalls → Server → Ipc → Ipc
destroy calls server ipc =
    release_lock calls server.lock_fd (close_transport calls server.transport ipc)
