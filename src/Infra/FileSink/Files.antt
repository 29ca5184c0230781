-- ===== src/Infra/FileSink/Files.antt =====
-- src/core/graph/nodes/FileInputNode.cpp over FileSink.hpp and HttpStreamer.hpp: what a download leaves
-- on the disk.
use hermes_flow_server.Common.{
  ℕ, ◌^◌, ◌<◌, ◌≤◌, ◌≡◌, refl, ap, Bool, true, false, none, some, List, [], ◌++◌, length, take,
  if◌then◌else◌, ◌⊎◌,
}
use hermes_flow_server.Common.Expected.{Expected, value, unexpected}
use hermes_flow_server.Types.{AppError}
use hermes_flow_server.Http.HttpStreamer.{
  Server, Outcome, returned, waiting, execute, connect, connected, get_content_length,
}
use hermes_flow_server.Http.HttpStreamer.Transfer.{body_of, Downloads, stream_to_sink-Downloads}
use hermes_flow_server.Infra.FileSink.{
  FileSystem, construct, prepare, destroy, Download, finished, stuck, close_download, download_to,
  download_from_s3, ensure_file_exists,
}

-- The bytes of the body, as the server sends them.
abbrev pub sent_by : Server → List ℕ
sent_by s = s.buffer ++ body_of s.turns

either-Downloads :
    (n : ℕ) (more : List ℕ) (b : Bool) (x y : Outcome Unit)
    → Downloads n more [] x
    → Downloads n more [] y
    → Downloads n more [] (if b then x else y)
either-Downloads n more true x y h k = h
either-Downloads n more false x y h k = k

connected-Downloads :
    (s : Server) (r : Expected AppError Unit)
    → length (sent_by s) < 2 ^ 64
    → Downloads (get_content_length s.content_length) (sent_by s) [] (connected s [] r)
connected-Downloads s (unexpected e) l = tt
connected-Downloads s (value u) l =
    let n = get_content_length s.content_length in
    either-Downloads n (sent_by s) s.request_error _ _ tt (
      either-Downloads n (sent_by s) s.header_error _ _ tt (
        either-Downloads n (sent_by s) s.is_ok _ _
          (stream_to_sink-Downloads s.buffer s.drain_error n s.turns [] l) tt))

execute-Downloads :
    (s : Server)
    → length (sent_by s) < 2 ^ 64
    → Downloads (get_content_length s.content_length) (sent_by s) [] (execute s [])
unfolding execute
execute-Downloads s l = connected-Downloads s (connect s) l

-- After a success, the file holds a first part of what the server sent, of the announced size where
-- one above 0 was announced; after a failure, there is no file.
abbrev pub Leaves : ℕ → List ℕ → Download → Type 0
Leaves expected more (finished (value u) disk) =
    (n : ℕ) × (n ≤ length more) × (disk ≡ some (take n more)) × ((expected ≡ 0) ⊎ (n ≡ expected))
Leaves expected more (finished (unexpected e) disk) = disk ≡ none
Leaves expected more (stuck sink) = Unit

close-Leaves :
    (fs : FileSystem) (expected : ℕ) (more : List ℕ) (r : Outcome Unit)
    → fs.is_removable ≡ true
    → Downloads expected more [] r
    → Leaves expected more (close_download fs construct r)
unfolding destroy
close-Leaves fs expected more (waiting sink) rm h = tt
close-Leaves fs expected more (returned (unexpected e) sink) rm h =
    ap (λ b. if b then none else some sink) rm
close-Leaves fs expected more (returned (value u) sink) rm (n, l, e, size) = (n, l, ap some e, size)

either-Leaves :
    (n : ℕ) (more : List ℕ) (b : Bool) (x y : Download)
    → Leaves n more x
    → Leaves n more y
    → Leaves n more (if b then x else y)
either-Leaves n more true x y h k = h
either-Leaves n more false x y h k = k

opened-Leaves :
    (fs : FileSystem) (s : Server) (b c : Bool)
    → fs.is_removable ≡ true
    → length (sent_by s) < 2 ^ 64
    → Leaves
        (get_content_length s.content_length)
        (sent_by s)
        (download_to fs s (prepare (record fs { dir_error = b; open_error = c }) none))
unfolding prepare
opened-Leaves fs s true c rm l = refl
opened-Leaves fs s false true rm l = refl
opened-Leaves fs s false false rm l =
    close-Leaves fs (get_content_length s.content_length) (sent_by s) (execute s []) rm
      (execute-Downloads s l)

-- Where a file is not there yet and can be removed, and its server sends fewer than 2^64 bytes:
-- after a download that succeeds, the file holds the bytes sent, from the first on, as many as the
-- server announced, if it announced more than 0; after one that fails, there is no file.
pub ensure_file_exists-Leaves :
    (fs : FileSystem) (has_access_key : Bool) (s : Server)
    → fs.is_removable ≡ true
    → length (sent_by s) < 2 ^ 64
    → Leaves
        (get_content_length s.content_length)
        (sent_by s)
        (ensure_file_exists fs has_access_key s none)
unfolding ensure_file_exists download_from_s3
ensure_file_exists-Leaves fs has_access_key s rm l =
    either-Leaves (get_content_length s.content_length) (sent_by s) has_access_key _ _
      (opened-Leaves fs s fs.dir_error fs.open_error rm l) refl
