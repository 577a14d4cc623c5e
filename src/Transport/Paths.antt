-- ===== src/Transport/Paths.antt =====
-- The paths of src/fifo.cpp: `default_ipc_directory` and `fifo_paths`.
use omni_sched.Base.{ℕ, Bytes, text, Bool, true, [], ◌∷◌, ◌++◌, ◌==◌, if◌then◌else◌}
use omni_sched.Codec.Number.{to_string}

-- Whether a path is empty or ends with a separator.
unfoldable pub ends_open : Bytes → Bool
ends_open [] = true
ends_open (c ∷ []) = c == b'/'
ends_open (c ∷ d ∷ s) = ends_open (d ∷ s)

-- `directory / name` of the standard library at a relative name.
unfoldable pub join_path : Bytes → Bytes → Bytes
join_path directory name =
    if ends_open directory then directory ++ name else directory ++ b'/' ∷ name

-- `std::filesystem::temp_directory_path` and `getuid` are the arguments.
unfoldable pub default_ipc_directory : Bytes → ℕ → Bytes
default_ipc_directory temporary uid = join_path temporary (text "kronos-" ++ to_string uid)

pub record FifoPaths : Type 0 where
  pub directory : Bytes
  pub requests : Bytes
  pub responses : Bytes

unfoldable pub fifo_paths : Bytes → FifoPaths
fifo_paths directory = record {
  directory = directory;
  requests = join_path directory (text "requests.fifo");
  responses = join_path directory (text "responses.fifo");
}
