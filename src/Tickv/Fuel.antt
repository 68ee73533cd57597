-- ===== src/Tickv/Fuel.antt =====
-- The loop of `scan_volume` of src/tickv.rs ends on every volume: each step takes a byte at least.
use neural_sgdb.Prelude.{
  ℕ, zero, suc, ◌+◌, ◌-◌, ◌≤◌, ◌<◌, true, ◌||◌, Option, some, List, length, length-drop, take, drop,
  ltb, ◌==◌, ◌≡◌, refl, sym, ap, ◌∙◌, inl, inr, arith, Bool-cases,
}
use neural_sgdb.Prelude.Bytes.{eq_bytes}
use neural_sgdb.Wire.Utf8.{is_utf8}
use neural_sgdb.Storage.Crc.{crc32}
use neural_sgdb.Storage.File.{max_klen, max_vlen}
use neural_sgdb.Tickv.{
  ckpt_key, header_len, record_size, hdr_shaped, is_blank, Found, blank, hunt, cut_off, dead,
  bad_text, checkpoint, written, header_word, fourth, found_body, found_record, find_record,
  ScanResult, no_scan, cut, extend, count_corrupt, index_record, next_boundary, scan_from,
  scan_or_none, scan_volume,
}
use neural_sgdb.Tickv.Records.{record_size_ge}

-- A record that is found takes a byte at least.
abbrev Progress : Found → Type 0
Progress (dead n) = 1 ≤ n
Progress (bad_text n) = 1 ≤ n
Progress (checkpoint n) = 1 ≤ n
Progress (written n key val) = 1 ≤ n
Progress _ = Unit

found_body-Progress :
    (klen total : ℕ) (body : List ℕ) → 1 ≤ total → Progress (found_body klen total body)
unfolding found_body
found_body-Progress klen total body h = elim (Bool-cases (is_utf8 (take klen body))) [
  | inl e ↦ elim (Bool-cases (eq_bytes (take klen body) ckpt_key)) [
    | inl f ↦ rw (e, f) h
    | inr f ↦ rw (e, f) h
  ]
  | inr e ↦ rw e h
]

found_record-Progress : (klen vlen : ℕ) (bytes : List ℕ) → Progress (found_record klen vlen bytes)
unfolding found_record
found_record-Progress klen vlen bytes =
    let total = record_size klen vlen in
    let pos : 1 ≤ total = omega (arith, record_size_ge klen vlen) in
    let body = take (klen + vlen) (drop header_len bytes) in
    elim (Bool-cases (ltb (length bytes) total)) [
      | inl e ↦ rw e tt
      | inr e ↦ elim (Bool-cases (fourth bytes == 0)) [
        | inl f ↦ rw (e, f) pos
        | inr f ↦ elim (Bool-cases (crc32 body == header_word 12 bytes)) [
          | inl g ↦ rw (e, f, g) (found_body-Progress klen total body pos)
          | inr g ↦ rw (e, f, g) tt
        ]
      ]
    ]

find_record-Progress : (bytes : List ℕ) → Progress (find_record bytes)
unfolding find_record
find_record-Progress bytes =
    let klen = header_word 4 bytes in
    let vlen = header_word 8 bytes in
    elim (Bool-cases (hdr_shaped (take header_len bytes))) [
      | inl e ↦ elim (Bool-cases (ltb max_klen klen || ltb max_vlen vlen)) [
        | inl f ↦ rw (e, f) tt
        | inr f ↦ rw (e, f) (found_record-Progress klen vlen bytes)
      ]
      | inr e ↦ elim (Bool-cases (is_blank (take header_len bytes))) [
        | inl f ↦ rw (e, f) tt
        | inr f ↦ rw (e, f) tt
      ]
    ]

boundary_ahead : (off : ℕ) → 1 ≤ next_boundary off - off
unfolding next_boundary
boundary_ahead off = omega arith

-- How the loop goes on from what it finds.
abbrev branch : ℕ → ℕ → List ℕ → ScanResult → Found → Option ScanResult
branch fuel off bytes s r = elim r [
  | blank ↦ some s
  | hunt ↦
      scan_from fuel (next_boundary off) (drop (next_boundary off - off) bytes) (count_corrupt s)
  | cut_off ↦ some (cut true s)
  | dead total ↦ scan_from fuel (off + total) (drop total bytes) (extend (off + total) s)
  | bad_text total ↦
      scan_from fuel (off + total) (drop total bytes) (count_corrupt (extend (off + total) s))
  | checkpoint total ↦ scan_from fuel (off + total) (drop total bytes) (extend (off + total) s)
  | written total key val ↦
      scan_from fuel (off + total) (drop total bytes)
        (index_record off key val (extend (off + total) s))
]

-- Two runs that both end, with one result.
abbrev BothEnd : Option ScanResult → Option ScanResult → Type 0
BothEnd x y = (out : ScanResult) × (x ≡ some out) × (y ≡ some out)

-- Two runs end alike from whatever the scan finds, if they do so from every later place.
go_on :
    (r : Found) (f g off : ℕ) (bytes : List ℕ) (s : ScanResult)
    → Progress r
    → ((n off' : ℕ) (s' : ScanResult)
        → 1 ≤ n
        → BothEnd (scan_from f off' (drop n bytes) s') (scan_from g off' (drop n bytes) s'))
    → BothEnd (branch f off bytes s r) (branch g off bytes s r)
go_on blank f g off bytes s p next = (s, refl, refl)
go_on hunt f g off bytes s p next =
    next (next_boundary off - off) (next_boundary off) (count_corrupt s) (boundary_ahead off)
go_on cut_off f g off bytes s p next = (cut true s, refl, refl)
go_on (dead n) f g off bytes s p next = next n (off + n) (extend (off + n) s) p
go_on (bad_text n) f g off bytes s p next = next n (off + n) (count_corrupt (extend (off + n) s)) p
go_on (checkpoint n) f g off bytes s p next = next n (off + n) (extend (off + n) s) p
go_on (written n key val) f g off bytes s p next =
    next n (off + n) (index_record off key val (extend (off + n) s)) p

-- More fuel than bytes is enough, and how much more does not matter.
scan_from_ends :
    (f g off : ℕ) (bytes : List ℕ) (s : ScanResult)
    → length bytes < f
    → length bytes < g
    → BothEnd (scan_from f off bytes s) (scan_from g off bytes s)
unfolding scan_from
scan_from_ends zero g off bytes s h k = absurd (omega arith)
scan_from_ends (suc f) zero off bytes s h k = absurd (omega arith)
scan_from_ends (suc f) (suc g) off bytes s h k = elim (Bool-cases (ltb (length bytes) header_len)) [
  | inl e ↦ rw e (cut (ltb 0 (length bytes) || s.truncated) s, refl, refl)
  | inr e ↦
      let big : header_len ≤ length bytes = ground (arith, e) in
      let next : (n off' : ℕ) (s' : ScanResult)
          → 1 ≤ n
          → BothEnd (scan_from f off' (drop n bytes) s') (scan_from g off' (drop n bytes) s') =
        λ n off' s' p.
          scan_from_ends f g off' (drop n bytes) s' (omega (arith, length-drop n bytes, big))
            (omega (arith, length-drop n bytes, big)) in
      rw e (go_on (find_record bytes) f g off bytes s (find_record-Progress bytes) next)
]

-- Whatever the bytes of a volume are, with more fuel than there are bytes the scan's loop comes to
-- its end before the fuel does, and its result is that of `scan_volume`.
pub scan_volume_fuel :
    (fuel : ℕ) (bytes : List ℕ)
    → length bytes < fuel
    → scan_from fuel 0 bytes no_scan ≡ some (scan_volume bytes)
unfolding scan_volume
scan_volume_fuel fuel bytes h =
    let (out, e, f) = scan_from_ends fuel (suc (length bytes)) 0 bytes no_scan h (omega arith) in
    e ∙ ap (λ o. some (scan_or_none o)) (sym f)
