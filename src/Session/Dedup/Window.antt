-- ===== src/Session/Dedup/Window.antt =====
-- The collections of the duplicate check in src/stratum.rs as one window of keys, and theorems on them.
use stratum_bee.Base.{
  leb, if◌then◌else◌, lt→leb_false, Bool-cases, length, drop, length-append, length-drop,
  text_eq→eq, text_eq_refl, ℕ, suc, ◌+◌, ◌≤◌, ◌<◌, ◌≡◌, refl, inl, inr, true, false, ◌||◌, List, [],
  ◌∷◌, ◌++◌, append_assoc, arith,
}
use stratum_bee.Session.Dedup.{
  DupKey, dup_key_eq, max_dup_hashes, Submitted, contains, remove_key, evict_oldest,
  check_duplicate,
}

pub dup_key_eq→eq : (a b : DupKey) → dup_key_eq a b ≡ true → a ≡ b
unfolding dup_key_eq
dup_key_eq→eq a b h = ground (arith, text_eq→eq a.extranonce2 b.extranonce2)

pub dup_key_eq_refl : (a : DupKey) → dup_key_eq a a ≡ true
unfolding dup_key_eq
dup_key_eq_refl a = ground (arith, text_eq_refl a.extranonce2)

-- No key stands twice.
abbrev pub Distinct : List DupKey → Type 0
Distinct [] = Unit {0}
Distinct (k ∷ keys) = (contains keys k ≡ false) × Distinct keys

pub record IsWindow (s : Submitted) : Type 0 where
  pub same : s.hashes ≡ s.order
  pub distinct : Distinct s.order
  pub bounded : length s.order ≤ max_dup_hashes

contains-append :
    (keys more : List DupKey) (key : DupKey)
    → contains (keys ++ more) key ≡ (contains keys key || contains more key)
unfolding contains
contains-append [] more key = refl
contains-append (k ∷ keys) more key = ground (arith, contains-append keys more key)

dup_key_eq-sym : (a b : DupKey) → dup_key_eq a b ≡ true → dup_key_eq b a ≡ true
dup_key_eq-sym a b h = rw (dup_key_eq→eq a b h) (dup_key_eq_refl b)

Distinct-append :
    (keys : List DupKey) (key : DupKey)
    → Distinct keys
    → contains keys key ≡ false
    → Distinct (keys ++ (key ∷ []))
unfolding contains
Distinct-append [] key d h = (refl, tt)
Distinct-append (k ∷ keys) key d h = (
  ground (arith, contains-append keys (key ∷ []) k, dup_key_eq-sym key k),
  Distinct-append keys key d.1 (ground arith),
)

-- What the code computes from the window alone: the oldest key goes when the window is full.
abbrev pub slide : List DupKey → DupKey → List DupKey
slide order key =
    if leb max_dup_hashes (length order) then drop 1 order ++ (key ∷ []) else order ++ (key ∷ [])

evict_oldest-same :
    (order : List DupKey)
    → evict_oldest order order ≡ record { hashes = drop 1 order; order = drop 1 order }
unfolding evict_oldest remove_key
evict_oldest-same [] = refl
evict_oldest-same (k ∷ order) = rw (dup_key_eq_refl k)

Distinct-drop : (order : List DupKey) → Distinct order → Distinct (drop 1 order)
Distinct-drop [] d = tt
Distinct-drop (k ∷ order) d = d.1

contains-drop :
    (order : List DupKey) (key : DupKey)
    → contains order key ≡ false
    → contains (drop 1 order) key ≡ false
unfolding contains
contains-drop [] key h = refl
contains-drop (k ∷ order) key h = ground arith

slide-bounded :
    (order : List DupKey) (key : DupKey)
    → length order ≤ max_dup_hashes
    → length (slide order key) ≤ max_dup_hashes
slide-bounded order key h = ground (
  arith,
  length-append (drop 1 order) (key ∷ []),
  length-append order (key ∷ []),
  length-drop 1 order,
)

slide-Distinct :
    (order : List DupKey) (key : DupKey)
    → Distinct order
    → contains order key ≡ false
    → Distinct (slide order key)
slide-Distinct order key d h = elim (Bool-cases (leb max_dup_hashes (length order))) [
  | inl full ↦
      rw full
        (Distinct-append (drop 1 order) key (Distinct-drop order d) (contains-drop order key h))
  | inr room ↦ rw room (Distinct-append order key d h)
]

-- Where the submitted keys are a window of different keys, the check answers whether the key is in
-- the window and, for a fresh key, slides the window by it, dropping the oldest key of a full one.
pub check_duplicate-slide :
    (s : Submitted) (key : DupKey)
    → IsWindow s
    → check_duplicate s key ≡ (
        if contains s.order key
        then (s, true)
        else (record { hashes = slide s.order key; order = slide s.order key }, false))
unfolding check_duplicate
check_duplicate-slide s key w = ground (arith, evict_oldest-same s.order)

-- The window is kept.
pub check_duplicate-IsWindow :
    (s : Submitted) (key : DupKey) → IsWindow s → IsWindow (check_duplicate s key).0
check_duplicate-IsWindow s key w = elim (Bool-cases (contains s.order key)) [
  | inl old ↦ rw (check_duplicate-slide s key w, old) w
  | inr new ↦
      rw (check_duplicate-slide s key w, new)
        (record {
          same = refl;
          distinct = slide-Distinct s.order key w.distinct new;
          bounded = slide-bounded s.order key w.bounded;
        })
]

-- The checks of several keys, one after the other.
abbrev pub check_all : Submitted → List DupKey → Submitted
check_all s [] = s
check_all s (key ∷ keys) = check_all (check_duplicate s key).0 keys

-- The key stands in the window, with `n` keys behind it at most.
record Recent (key : DupKey) (n : ℕ) (order : List DupKey) : Type 0 where
  before : List DupKey
  after : List DupKey
  split : order ≡ before ++ (key ∷ after)
  few : length after ≤ n

Recent-contains :
    (before after : List DupKey) (key : DupKey) → contains (before ++ (key ∷ after)) key ≡ true
unfolding contains
Recent-contains [] after key = rw (dup_key_eq_refl key)
Recent-contains (k ∷ before) after key = ground (arith, Recent-contains before after key)

put_behind :
    (before after : List DupKey) (key k : DupKey) (n : ℕ)
    → length after ≤ n
    → Recent key (n + 1) ((before ++ (key ∷ after)) ++ (k ∷ []))
put_behind before after key k n few = record {
  before = before;
  after = after ++ (k ∷ []);
  split = append_assoc before (key ∷ after) (k ∷ []);
  few = omega (arith, length-append after (k ∷ []));
}

slide-Recent :
    (key k : DupKey) (n : ℕ) (before after : List DupKey)
    → n + 1 < max_dup_hashes
    → length after ≤ n
    → Recent key (n + 1) (slide (before ++ (key ∷ after)) k)
slide-Recent key k n [] after room few =
    rw (lt→leb_false max_dup_hashes (suc (length after)) (omega arith))
      (put_behind [] after key k n few)
slide-Recent key k n (b ∷ before) after room few =
    elim (Bool-cases (leb max_dup_hashes (suc (length (before ++ (key ∷ after)))))) [
      | inl full ↦ rw full (put_behind before after key k n few)
      | inr free ↦ rw free (put_behind (b ∷ before) after key k n few)
    ]

check-Recent :
    (s : Submitted) (key k : DupKey) (n : ℕ)
    → IsWindow s
    → n + 1 < max_dup_hashes
    → Recent key n s.order
    → Recent key (n + 1) (check_duplicate s k).0.order
check-Recent s key k n w room r = elim (Bool-cases (contains s.order k)) [
  | inl old ↦
      rw (check_duplicate-slide s k w, old)
        (record { before = r.before; after = r.after; split = r.split; few = omega (arith, r.few) })
  | inr new ↦
      rw (check_duplicate-slide s k w, new, r.split)
        (slide-Recent key k n r.before r.after room r.few)
]

check_all-Recent :
    (s : Submitted) (key : DupKey) (keys : List DupKey) (n : ℕ)
    → IsWindow s
    → length keys + n < max_dup_hashes
    → Recent key n s.order
    → (contains (check_all s keys).order key ≡ true) × IsWindow (check_all s keys)
check_all-Recent s key [] n w room r = (rw (r.split) (Recent-contains r.before r.after key), w)
check_all-Recent s key (k ∷ keys) n w room r =
    check_all-Recent (check_duplicate s k).0 key keys (n + 1) (check_duplicate-IsWindow s k w)
      (omega arith) (check-Recent s key k n w (omega arith) r)

slide-new : (order : List DupKey) (key : DupKey) → Recent key 0 (slide order key)
slide-new order key = elim (Bool-cases (leb max_dup_hashes (length order))) [
  | inl full ↦
      rw full (record { before = drop 1 order; after = []; split = refl; few = omega arith })
  | inr free ↦ rw free (record { before = order; after = []; split = refl; few = omega arith })
]

-- Where the submitted keys are a window of different keys, a key that was fresh is a duplicate at
-- the next check, whatever keys are checked between, if they are fewer than 4096.
pub check_duplicate-again :
    (s : Submitted) (key : DupKey) (keys : List DupKey)
    → IsWindow s
    → (check_duplicate s key).1 ≡ false
    → length keys < max_dup_hashes
    → (check_duplicate (check_all (check_duplicate s key).0 keys) key).1 ≡ true
check_duplicate-again s key keys w fresh h =
    let new : contains s.order key ≡ false = ground (arith, check_duplicate-slide s key w) in
    let recent : Recent key 0 (check_duplicate s key).0.order =
      rw (check_duplicate-slide s key w, new) (slide-new s.order key) in
    let (held, w') =
      check_all-Recent (check_duplicate s key).0 key keys 0 (check_duplicate-IsWindow s key w)
        (omega arith) recent in
    rw (check_duplicate-slide _ key w', held) refl
