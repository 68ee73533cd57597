-- ===== src/Art/Missed.antt =====
-- `has_prefix_conflict` of src/art.rs: it misses the keys that end where an inner node with a prefix
-- starts.
use neural_sgdb.Prelude.{
  ℕ, ◌+◌, true, false, none, some, List, [], ◌∷◌, ◌++◌, length, length-drop, drop, ltb, ge→not_ltb,
  ◌⊎◌, ◌==◌, ◌≡◌, refl, ap, sym, ◌∙◌, inl, inr, arith, drop-length_append, append_assoc,
  length-append,
}
use neural_sgdb.Art.{
  Width, Node, inner, Kids, nil, kid, byte_at, begins, common_prefix, insert_rec, insert_kids,
  split_prefix, get_rec, get_kids, next_byte,
}
use neural_sgdb.Art.Index.{ArtIndex, has_prefix_conflict, insert, get, conflict_rec, conflict_kids}
use neural_sgdb.Art.Paths.{begins_own, byte_at_own, byte_at-drop, drop-drop}
use neural_sgdb.Art.Count.{get_kids_lem, get_rec-on, get_rec-off}
use neural_sgdb.Art.Guard.{conflict-on, conflict_kids_lem}

-- The child of a byte.
abbrev pub HasKid : Kids → ℕ → Node → Type 0
HasKid nil b c = ⊥
HasKid (kid b' c' ks) b c = ((b' == b ≡ true) × (c' ≡ c)) ⊎ ((b' == b ≡ false) × HasKid ks b c)

-- The bytes of the prefixes and edges on the way down to a node.
pub data Reaches (low : Node) : Node → List ℕ → Type 0 where
  there : Reaches low low []
  down :
      (w : Width) (p : List ℕ) (ks : Kids) (b : ℕ) (c : Node) (q : List ℕ)
      → HasKid ks b c
      → Reaches low c q
      → Reaches low (inner w p ks) (p ++ b ∷ q)

conflict-HasKid :
    (ks : Kids) (b : ℕ) (c : Node) (key : List ℕ) (d : ℕ)
    → HasKid ks b c
    → conflict_kids ks b key d ≡ conflict_rec c key d
conflict-HasKid nil b c key d h = absurd h
conflict-HasKid (kid b' c' ks) b c key d (inl (e, f)) =
    conflict_kids_lem b' c' ks b key d ∙ rw (e, f) refl
conflict-HasKid (kid b' c' ks) b c key d (inr (e, h)) =
    conflict_kids_lem b' c' ks b key d ∙ rw e (conflict-HasKid ks b c key d h)

get-HasKid :
    (ks : Kids) (b : ℕ) (c : Node) (key : List ℕ) (d : ℕ)
    → HasKid ks b c
    → get_kids ks b key d ≡ get_rec c key d
get-HasKid nil b c key d h = absurd h
get-HasKid (kid b' c' ks) b c key d (inl (e, f)) = get_kids_lem b' c' ks b key d ∙ rw (e, f) refl
get-HasKid (kid b' c' ks) b c key d (inr (e, h)) =
    get_kids_lem b' c' ks b key d ∙ rw e (get-HasKid ks b c key d h)

insert_kids_hit :
    (b' : ℕ) (c : Node) (ks : Kids) (b : ℕ) (key : List ℕ) (d v len : ℕ)
    → b' == b ≡ true
    → insert_rec c key d v len ≡ (c, len)
    → insert_kids (kid b' c ks) b key d v len ≡ some (kid b' c ks, len)
unfolding insert_kids
insert_kids_hit b' c ks b key d v len e s = ground (arith, e, s)

insert_kids_miss :
    (b' : ℕ) (c : Node) (ks : Kids) (b : ℕ) (key : List ℕ) (d v len : ℕ)
    → b' == b ≡ false
    → insert_kids ks b key d v len ≡ some (ks, len)
    → insert_kids (kid b' c ks) b key d v len ≡ some (kid b' c ks, len)
unfolding insert_kids
insert_kids_miss b' c ks b key d v len e s = ground (arith, e, s)

insert-HasKid :
    (ks : Kids) (b : ℕ) (c : Node) (key : List ℕ) (d v len : ℕ)
    → HasKid ks b c
    → insert_rec c key d v len ≡ (c, len)
    → insert_kids ks b key d v len ≡ some (ks, len)
insert-HasKid nil b c key d v len h s = absurd h
insert-HasKid (kid b' c' ks) b c key d v len (inl (e, f)) s =
    insert_kids_hit b' c' ks b key d v len e
      (ap (λ n. insert_rec n key d v len) f ∙ s ∙ ap (λ n. (n, len)) (sym f))
insert-HasKid (kid b' c' ks) b c key d v len (inr (e, h)) s =
    insert_kids_miss b' c' ks b key d v len e (insert-HasKid ks b c key d v len h s)

-- At a node with a prefix where the key has ended.
module _ (w : Width) (x : ℕ) (p : List ℕ) (ks : Kids) (key : List ℕ) (d : ℕ)
    (e : drop d key ≡ []) where
  past : ltb d (length key) ≡ false
  past = ge→not_ltb d (length key) (omega (arith, length-drop d key, ap length e))

  conflict_ended : conflict_rec (inner w (x ∷ p) ks) key d ≡ false
  unfolding conflict_rec begins
  conflict_ended = rw (e, past) refl

  no_next : next_byte (x ∷ p) key d ≡ none
  unfolding next_byte begins
  no_next = rw e refl

  get_ended : get_rec (inner w (x ∷ p) ks) key d ≡ none
  get_ended = get_rec-off w (x ∷ p) ks key d no_next

  insert_ended :
      (v len : ℕ) → insert_rec (inner w (x ∷ p) ks) key d v len ≡ (inner w (x ∷ p) ks, len)
  unfolding insert_rec split_prefix common_prefix begins
  insert_ended v len = rw e (ground arith)

-- On the way down to such a node.
module _ (w : Width) (x : ℕ) (p : List ℕ) (ks : Kids) (key : List ℕ) where
  abbrev low : Node
  low = inner w (x ∷ p) ks

  -- The key goes on over the prefix of a node and the byte of an edge.
  module _ (p' : List ℕ) (b : ℕ) (q : List ℕ) (d : ℕ) (e : drop d key ≡ p' ++ b ∷ q) where
    on_prefix : begins p' (drop d key) ≡ true
    on_prefix = rw e (begins_own p' (b ∷ q))

    on_byte : byte_at key (d + length p') ≡ some b
    on_byte = byte_at-drop d (length p') key ∙ rw e (byte_at_own p' q b)

    behind_byte : drop (d + length p' + 1) key ≡ q
    behind_byte =
        let n : d + length p' + 1 ≡ d + length (p' ++ b ∷ []) =
          omega (arith, length-append p' (b ∷ [])) in
        ap (λ i. drop i key) n
        ∙ sym (drop-drop d (length (p' ++ b ∷ [])) key)
        ∙ ap (drop (length (p' ++ b ∷ []))) (e ∙ sym (append_assoc p' (b ∷ []) q))
        ∙ drop-length_append (p' ++ b ∷ []) q

    on_next : next_byte p' key d ≡ some b
    unfolding next_byte
    on_next = rw (on_prefix, on_byte) refl

  conflict-Reaches :
      (n : Node) (q : List ℕ) (d : ℕ)
      → Reaches low n q
      → drop d key ≡ q
      → conflict_rec n key d ≡ false
  conflict-Reaches _ _ d there e = conflict_ended w x p ks key d e
  conflict-Reaches _ _ d (down w' p' ks' b c q h r) e =
      conflict-on w' p' ks' key d b (on_prefix p' b q d e) (on_byte p' b q d e)
      ∙ conflict-HasKid ks' b c key (d + length p' + 1) h
      ∙ conflict-Reaches c q (d + length p' + 1) r (behind_byte p' b q d e)

  get-Reaches :
      (n : Node) (q : List ℕ) (d : ℕ) → Reaches low n q → drop d key ≡ q → get_rec n key d ≡ none
  get-Reaches _ _ d there e = get_ended w x p ks key d e
  get-Reaches _ _ d (down w' p' ks' b c q h r) e =
      get_rec-on w' p' ks' key d b (on_next p' b q d e)
      ∙ get-HasKid ks' b c key (d + length p' + 1) h
      ∙ get-Reaches c q (d + length p' + 1) r (behind_byte p' b q d e)

  insert-Reaches :
      (n : Node) (q : List ℕ) (d v len : ℕ)
      → Reaches low n q
      → drop d key ≡ q
      → insert_rec n key d v len ≡ (n, len)
  unfolding insert_rec
  insert-Reaches _ _ d v len there e = insert_ended w x p ks key d e v len
  insert-Reaches _ _ d v len (down w' p' ks' b c q h r) e =
      let same =
        insert-HasKid ks' b c key (d + length p' + 1) v len h
          (insert-Reaches c q (d + length p' + 1) v len r (behind_byte p' b q d e)) in
      rw (on_prefix p' b q d e, on_byte p' b q d e) (rw same refl)

-- The guard misses a key that spells exactly the way down from the root to an inner node with a
-- non-empty prefix: it reports no conflict, and the insertion which it lets pass leaves the index as it
-- was, so that a lookup of the key finds nothing.
pub has_prefix_conflict_misses :
    (w : Width) (x : ℕ) (p : List ℕ) (ks : Kids) (root : Node) (len v : ℕ) (key : List ℕ)
    → Reaches (inner w (x ∷ p) ks) root key
    → let t : ArtIndex = record { root = some root; len = len } in
      (has_prefix_conflict t key ≡ false) × (insert t key v ≡ t) × (get (insert t key v) key ≡ none)
unfolding has_prefix_conflict insert get
has_prefix_conflict_misses w x p ks root len v key r =
    let same = insert-Reaches w x p ks key root key 0 v len r refl in
    (
      conflict-Reaches w x p ks key root key 0 r refl,
      ap (λ r. record { root = some r.0; len = r.1 }) same,
      rw same (get-Reaches w x p ks key root key 0 r refl),
    )
