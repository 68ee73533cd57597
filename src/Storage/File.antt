-- ===== src/Storage/File.antt =====
-- `FileStorage` of src/storage.rs: the append log in a file, its recovery on open and its
-- compaction. The file's contents are a list of bytes; an absent file has none, and open treats
-- it so. What the operating system answers is an argument of every operation that asks it.
use neural_sgdb.Prelude.{
  ℕ, zero, suc, ◌+◌, ◌-◌, ◌^◌, Bool, true, false, not, ◌||◌, ◌&&◌, Option, none, some, List, [],
  ◌∷◌, ◌++◌, length, take, ltb, leb, ◌==◌, if◌then◌else◌, foldl,
}
use neural_sgdb.Prelude.Bytes.{le_bytes}
use neural_sgdb.Wire.{Result, ok, err, ok_or, guard, ◌>>=◌, ◌>>◌, split_at, read_le}
use neural_sgdb.Storage.Map
use neural_sgdb.Storage.Map.{Map}
use neural_sgdb.Storage.Crc.{crc32, crc32_parts}

-- The messages of the `SgdbError::Storage` that the file backend returns, and the
-- `std::io::Error` of its open.
pub data FileError : Type 0 where
  limits : FileError
  open_append : FileError
  write : FileError
  flush : FileError
  compact_create : FileError
  compact_write : FileError
  compact_flush : FileError
  compact_rename : FileError
  io_error : FileError

abbrev pub max_klen : ℕ
max_klen = 4096

abbrev pub max_vlen : ℕ
max_vlen = 1048576

abbrev pub tombstone : ℕ
tombstone = 2 ^ 32 - 1

-- `file` says whether the handle for appending is open.
pub record FileStorage : Type 0 where
  pub map : Map
  pub file : Bool
  pub disk : List ℕ

-- What an append meets: whether the file opens, after how many bytes the write fails, if it
-- does, and whether the flush succeeds.
pub record AppendIo : Type 0 where
  pub opens : Bool
  pub fails_after : Option ℕ
  pub flushes : Bool

-- Which of the steps of a compaction succeed.
pub record CompactIo : Type 0 where
  pub creates : Bool
  pub writes : Bool
  pub flushes : Bool
  pub renames : Bool

-- Whether the parent directory exists or is made, whether the file, if there is one, is read, and
-- whether a tail is cut off.
pub record OpenIo : Type 0 where
  pub makes_parent : Bool
  pub reads : Bool
  pub truncates : Bool

-- What a record of the log says: a value for a key, or the tombstone of a key.
pub data Change : Type 0 where
  written : List ℕ → List ℕ → Change
  deleted : List ℕ → Change

-- The change that a write of `val` at `key` records: an empty value is a tombstone.
abbrev pub change_of : List ℕ → List ℕ → Change
change_of key [] = deleted key
change_of key (b ∷ val) = written key (b ∷ val)

-- What a change does to the map, in session and in recovery alike.
unfoldable pub apply : Map → Change → Map
apply m (written k v) = Map.insert k v m
apply m (deleted k) = Map.remove k m

unfoldable pub is_empty : List ℕ → Bool
is_empty [] = true
is_empty (b ∷ bs) = false

-- The buffer of a record: `[klen][vlen][crc][key][val]`.
unfoldable pub record_bytes : List ℕ → List ℕ → List ℕ
record_bytes key val =
    let vlen = if is_empty val then tombstone else length val in
    le_bytes 4 (length key)
    ++ (le_bytes 4 vlen ++ (le_bytes 4 (crc32_parts key val) ++ (key ++ val)))

-- The `break` of the recovery loop.
pub data Break : Type 0 where
  broken : Break

abbrev pub read_word : List ℕ → Result Break (ℕ × List ℕ)
read_word bytes = ok_or (read_le 4 bytes) broken

abbrev pub read_slice : ℕ → List ℕ → Result Break (List ℕ × List ℕ)
read_slice n bytes = ok_or (split_at n bytes) broken

abbrev pub read_tombstone : ℕ → ℕ → List ℕ → Result Break (Change × List ℕ)
read_tombstone klen crc bytes = do
  (key, rest) ← read_slice klen bytes
  guard (crc32 key == crc) broken
  ok (deleted key, rest)

abbrev pub read_written : ℕ → ℕ → ℕ → List ℕ → Result Break (Change × List ℕ)
read_written klen vlen crc bytes = do
  (key, bytes) ← read_slice klen bytes
  (val, rest) ← read_slice vlen bytes
  guard (crc32_parts key val == crc) broken
  ok (written key val, rest)

-- One turn of the loop: the change that the record at the cursor holds and the bytes behind it.
unfoldable pub read_record : List ℕ → Result Break (Change × List ℕ)
read_record bytes = do
  (klen, bytes) ← read_word bytes
  (vlen, bytes) ← read_word bytes
  (crc, bytes) ← read_word bytes
  guard (leb klen max_klen) broken
  if vlen == tombstone
      then read_tombstone klen crc bytes
      else (guard (leb vlen max_vlen) broken >> read_written klen vlen crc bytes)

-- The bytes that a record takes: `end - off`.
unfoldable pub size : Change → ℕ
size (written k v) = 12 + length k + length v
size (deleted k) = 12 + length k

-- The loop over the bytes from the cursor on, with the map so far and `valid_end`. The fuel is a
-- bound on the records read.
unfoldable pub recover : ℕ → Map → ℕ → List ℕ → Map × ℕ
recover zero m valid_end bytes = (m, valid_end)
recover (suc fuel) m valid_end bytes = elim (read_record bytes) [
  | err b ↦ (m, valid_end)
  | ok (change, rest) ↦ recover fuel (apply m change) (valid_end + size change) rest
]

-- Each record takes twelve bytes at least, so the length of the file is fuel enough.
unfoldable pub open_file : OpenIo → List ℕ → Result FileError FileStorage
open_file io contents = do
  guard io.makes_parent io_error
  guard io.reads io_error
  let (m, valid_end) = recover (length contents) [] 0 contents
  guard (not (ltb valid_end (length contents)) || io.truncates) io_error
  ok (record { map = m; file = false; disk = take valid_end contents })

-- Opening the handle if it is not, `write_all` and `flush`.
unfoldable pub write_all :
    FileStorage → AppendIo → List ℕ → FileStorage × Result FileError (Unit {0})
write_all s io buf =
    if not s.file && not io.opens then (s, err open_append) else elim io.fails_after [
      | some n ↦ (record s { file = true; disk = s.disk ++ take n buf }, err write)
      | none ↦ (record s { file = true; disk = s.disk ++ buf }, guard io.flushes flush)
    ]

unfoldable pub append :
    FileStorage → AppendIo → List ℕ → List ℕ → FileStorage × Result FileError (Unit {0})
append s io key val =
    if ltb max_klen (length key) || ltb max_vlen (length val)
    then (s, err limits)
    else write_all s io (record_bytes key val)

-- `self.append(…)?` and then a change of the map.
abbrev pub then_apply :
    FileStorage × Result FileError (Unit {0})
    → List Change
    → FileStorage × Result FileError (Unit {0})
then_apply (s, err e) changes = (s, err e)
then_apply (s, ok u) changes = (record s { map = foldl apply s.map changes }, ok tt)

unfoldable pub put :
    FileStorage → AppendIo → List ℕ → List ℕ → FileStorage × Result FileError (Unit {0})
put s io key val = then_apply (append s io key val) (change_of key val ∷ [])

unfoldable pub delete : FileStorage → AppendIo → List ℕ → FileStorage × Result FileError (Unit {0})
delete s io key = then_apply (append s io key []) (deleted key ∷ [])

unfoldable pub batch_bytes : List (List ℕ × List ℕ) → List ℕ
batch_bytes [] = []
batch_bytes ((k, v) ∷ items) = record_bytes k v ++ batch_bytes items

unfoldable pub within_limits : List (List ℕ × List ℕ) → Bool
within_limits [] = true
within_limits ((k, v) ∷ items) =
    if ltb max_klen (length k) || ltb max_vlen (length v) then false else within_limits items

unfoldable pub changes_of : List (List ℕ × List ℕ) → List Change
changes_of [] = []
changes_of ((k, v) ∷ items) = change_of k v ∷ changes_of items

-- One write of all the records, also `put_many`.
unfoldable pub put_batch :
    FileStorage → AppendIo → List (List ℕ × List ℕ) → FileStorage × Result FileError (Unit {0})
put_batch s io [] = (s, ok tt)
put_batch s io (item ∷ items) =
    if within_limits (item ∷ items)
    then then_apply (write_all s io (batch_bytes (item ∷ items))) (changes_of (item ∷ items))
    else (s, err limits)

-- The live pairs are written to another file, which is renamed to the log's name.
unfoldable pub compact : FileStorage → CompactIo → FileStorage × Result FileError (Unit {0})
compact s io =
    if not io.creates
    then (s, err compact_create)
    else if not io.writes
    then (s, err compact_write)
    else if not io.flushes
    then (s, err compact_flush)
    else if not io.renames
    then (record s { file = false }, err compact_rename)
    else (record s { file = false; disk = batch_bytes s.map }, ok tt)
