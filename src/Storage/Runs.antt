-- ===== src/Storage/Runs.antt =====
-- Runs of the storage backends, and their theorems at concrete stores.
use neural_sgdb.Prelude.{
  ℕ, ◌≡◌, refl, true, false, none, some, List, [], ◌∷◌, ◌++◌, arith, take, if◌then◌else◌,
}
use neural_sgdb.Prelude.Bytes.{le_bytes, of_le, eq_bytes}
use neural_sgdb.Prelude.Text.{codes}
use neural_sgdb.Wire.{ok, err, read_le, split_at}
use neural_sgdb.Storage.Map.{Map, IsSorted, get, insert, lt_bytes}
use neural_sgdb.Storage.Crc.{crc32, crc32_parts, crc32_update, crc32_table, crc32_round, not_u32}
use neural_sgdb.Storage.File.{
  FileStorage, AppendIo, CompactIo, written, deleted, write, put, put_batch, within_limits, compact,
  open_file, is_empty, changes_of, read_record, apply, append, write_all, record_bytes, recover,
  size,
}
use neural_sgdb.Storage.Log.{bytes_of, read_record-take}
use neural_sgdb.Storage.Recovery.{log, replay, works, open_file-log}
use neural_sgdb.Storage.Reopen.{open_file_again}
use neural_sgdb.Storage.Durable.{IsLogged, put_batch_crash, put_batch-IsLogged}
use neural_sgdb.Storage.Reads.{put_lem}
use neural_sgdb.Storage.Compact.{compact-IsLogged}
use neural_sgdb.Storage.Snapshot.{to_bytes, from_bytes, from_bytes-to_bytes}

-- The check value of CRC-32.
crc32_check : crc32 (codes "123456789") ≡ 0xCBF43926
unfolding crc32 crc32_update crc32_table crc32_round not_u32
crc32_check = refl

abbrev a : List ℕ
a = 97 ∷ []

abbrev b : List ℕ
b = 98 ∷ []

abbrev one : List ℕ
one = 1 ∷ []

-- A store of one key, written once.
abbrev store : FileStorage
store = record { map = (a, one) ∷ []; file = true; disk = log (written a one ∷ []) }

store-IsLogged : IsLogged store
unfolding is_empty apply insert
store-IsLogged = (written a one ∷ [], (((omega arith, refl, omega arith), tt), refl, refl))

abbrev fine : AppendIo
fine = record { opens = true; fails_after = none; flushes = true }

-- The write stops after five bytes.
abbrev torn : AppendIo
torn = record { opens = true; fails_after = some 5; flushes = true }

abbrev all_fine : CompactIo
all_fine = record { creates = true; writes = true; flushes = true; renames = true }

fine_run : (put store fine b one).1 ≡ ok tt
unfolding put append write_all
fine_run = refl

torn_run : (put store torn b one).1 ≡ err write
unfolding put append write_all
torn_run = refl

batch_fine : (put_batch store fine ((b, one) ∷ (a, []) ∷ [])).1 ≡ ok tt
unfolding put_batch within_limits write_all
batch_fine = refl

open_file-log_example :
    open_file works (log (written a one ∷ []) ++ take 5 (bytes_of (deleted a)))
    ≡ ok (record {
      map = replay [] (written a one ∷ []);
      file = false;
      disk = log (written a one ∷ []);
    })
unfolding is_empty size
open_file-log_example =
    open_file-log (written a one ∷ []) (take 5 (bytes_of (deleted a)))
      ((omega arith, refl, omega arith), tt)
      (read_record-take (deleted a) 5 (omega arith) (omega arith))

-- A put behind a torn one.
abbrev behind : FileStorage
behind = (put (put store torn b one).0 fine b one).0

open_file_again_example :
    (s : FileStorage) × ((open_file works (behind.disk ++ (7 ∷ [])) ≡ ok s)
      × (open_file works s.disk ≡ ok s))
open_file_again_example = open_file_again (behind.disk ++ (7 ∷ []))

put_batch_crash_example :
    (k : ℕ) × ((s' : FileStorage) × ((open_file works
            (put_batch store torn ((b, one) ∷ (a, []) ∷ [])).0.disk
          ≡ ok s')
        × (s'.map ≡ replay store.map (take k (changes_of ((b, one) ∷ (a, []) ∷ []))))
        × IsLogged s'))
put_batch_crash_example = put_batch_crash store torn ((b, one) ∷ (a, []) ∷ []) store-IsLogged

put_batch-IsLogged_example :
    IsLogged (put_batch store fine ((b, one) ∷ (a, []) ∷ [])).0
    × ((put_batch store fine ((b, one) ∷ (a, []) ∷ [])).0.map
        ≡ replay store.map (changes_of ((b, one) ∷ (a, []) ∷ [])))
put_batch-IsLogged_example =
    put_batch-IsLogged store fine ((b, one) ∷ (a, []) ∷ []) store-IsLogged batch_fine

put_lem_example :
    (get (put store fine b one).0.map a
      ≡ (if eq_bytes b a then (if is_empty one then none else some one) else get store.map a))
    × IsLogged (put store fine b one).0
put_lem_example = put_lem store fine b one a store-IsLogged fine_run

compact-IsLogged_example :
    IsLogged (compact store all_fine).0 × ((compact store all_fine).0.map ≡ store.map)
compact-IsLogged_example = compact-IsLogged store all_fine store-IsLogged

abbrev pairs : Map
pairs = (a, one) ∷ (b, one) ∷ []

pairs-IsSorted : IsSorted pairs
unfolding lt_bytes
pairs-IsSorted = ((refl, tt), (tt, tt))

from_bytes-to_bytes_example : from_bytes (to_bytes pairs) ≡ ok pairs
from_bytes-to_bytes_example =
    from_bytes-to_bytes pairs pairs-IsSorted
      ((omega arith, omega arith), ((omega arith, omega arith), tt)) (omega arith)

-- The put behind a torn one is in the session, and lost when the file is opened again.
put_behind : get behind.map b ≡ some one
unfolding put append write_all apply get insert lt_bytes eq_bytes
put_behind = refl

lost_behind : open_file works behind.disk ≡ ok (record store { file = false })
unfolding put append write_all apply get insert lt_bytes eq_bytes open_file recover read_record
    read_le split_at le_bytes record_bytes is_empty crc32 crc32_parts crc32_update crc32_table
    crc32_round not_u32 of_le size
lost_behind = refl
