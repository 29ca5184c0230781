-- ===== src/Infra/FileSink.antt =====
-- src/infra/io/FileSink.hpp and PartialFileGuard.hpp, with their use in the download of
-- src/core/graph/nodes/FileInputNode.cpp. `disk` is what is at the path: nothing, or a file's bytes.
pub mod Files
use hermes_flow_server.Common.{ℕ, Bool, true, false, Option, none, some, List, [], if◌then◌else◌}
use hermes_flow_server.Common.Expected.{Expected, value, unexpected}
use hermes_flow_server.Types.{AppError, config_error, file_system_error}
use hermes_flow_server.Http.HttpStreamer.{Server, Outcome, returned, waiting, execute}

pub record PartialFileGuard : Type 0 where
  pub engaged : Bool

abbrev pub construct : PartialFileGuard
construct = record { engaged = true }

abbrev pub disarm : PartialFileGuard → PartialFileGuard
disarm g = record g { engaged = false }

-- The destructor, for whether the file can be removed.
unfoldable pub destroy : Bool → PartialFileGuard → Option (List ℕ) → Option (List ℕ)
destroy is_removable g disk = if g.engaged then (if is_removable then none else disk) else disk

-- What the file system answers to a download: the errors of `create_directories` and `open`, and
-- whether the file can be removed again.
pub record FileSystem : Type 0 where
  pub dir_error : Bool
  pub open_error : Bool
  pub is_removable : Bool

-- `Prepare`, for a path with a parent: the guard where it is made, and the file.
unfoldable pub prepare :
    FileSystem → Option (List ℕ) → Expected AppError PartialFileGuard × Option (List ℕ)
prepare fs disk =
    if fs.dir_error
    then (unexpected file_system_error, disk)
    else (if fs.open_error
        then (unexpected file_system_error, disk)
        else (value construct, some []))

-- `Commit`
abbrev pub commit : PartialFileGuard → PartialFileGuard
commit g = disarm g

-- A download that came to its end, with what it leaves at the path; or one that waits for bytes.
pub data Download : Type 0 where
  finished : Expected AppError Unit → Option (List ℕ) → Download
  stuck : List ℕ → Download

-- The end of `download_from_s3` after `request_file`, with the sink's destructor.
abbrev pub close_download : FileSystem → PartialFileGuard → Outcome Unit → Download
close_download fs g (waiting sink) = stuck sink
close_download fs g (returned (unexpected e) sink) =
    finished (unexpected e) (destroy fs.is_removable g (some sink))
close_download fs g (returned (value u) sink) =
    finished (value tt) (destroy fs.is_removable (commit g) (some sink))

abbrev pub download_to :
    FileSystem → Server → Expected AppError PartialFileGuard × Option (List ℕ) → Download
download_to fs s (unexpected e, disk) = finished (unexpected e) disk
download_to fs s (value g, disk) = close_download fs g (execute s [])

-- `S3Session::create` asks for an access key.
unfoldable pub download_from_s3 : FileSystem → Bool → Server → Option (List ℕ) → Download
unfolding prepare destroy
download_from_s3 fs has_access_key s disk =
    if has_access_key
    then download_to fs s (prepare fs disk)
    else finished (unexpected config_error) disk

unfoldable pub ensure_file_exists : FileSystem → Bool → Server → Option (List ℕ) → Download
unfolding download_from_s3
ensure_file_exists fs has_access_key s disk = elim disk [
  | some file ↦ finished (value tt) (some file)
  | none ↦ download_from_s3 fs has_access_key s none
]
