-- ===== src/Queue/Chain.antt =====
-- What a linked queue stands for: the list of its descriptors, from head to tail.
use torc_lite.Common.{◌≡◌, ◌≢◌, refl, List, [], ◌∷◌, ◌++◌, true, false, ◌||◌, has, Distinct, arith}
use torc_lite.Desc.{Ptr, null}
use torc_lite.Queue.{Links, Queue}

-- From `p`, behind `before`, the `next` pointers lead through `xs` to `after`, the `prev` pointers
-- lead back, and `last` is the last descriptor (`before` if there is none).
abbrev pub Seg : Links → (before p : Ptr) → List Ptr → (last after : Ptr) → Type 0
Seg m before p [] last after = (p ≡ after) × (last ≡ before)
Seg m before p (x ∷ xs) last after =
    (p ≡ x) × (x ≢ null) × (m.prev x ≡ before) × Seg m x (m.next x) xs last after

-- The queue `q` holds exactly the descriptors `xs`, each once.
pub record IsQueue (m : Links) (q : Queue) (xs : List Ptr) : Type 0 where
  pub chain : Seg m null q.head xs q.tail null
  pub distinct : Distinct xs

-- Two states of the links agree on every descriptor that is not in `xs`.
abbrev pub SameOutside : List Ptr → Links → Links → Type 0
SameOutside xs m n = (a : Ptr) → has a xs ≡ false → (n.prev a ≡ m.prev a) × (n.next a ≡ m.next a)

pub has-append : (a : Ptr) (xs ys : List Ptr) → has a (xs ++ ys) ≡ (has a xs || has a ys)
has-append a [] ys = refl
has-append a (x ∷ xs) ys = ground (arith, has-append a xs ys)

-- A chain survives any change that spares its own descriptors.
pub Seg-frame :
    (m n : Links) (before p : Ptr) (xs : List Ptr) (last after : Ptr)
    → Seg m before p xs last after
    → ((a : Ptr) → has a xs ≡ true → (n.prev a ≡ m.prev a) × (n.next a ≡ m.next a))
    → Seg n before p xs last after
Seg-frame m n before p [] last after s same = s
Seg-frame m n before p (x ∷ xs) last after s same =
    let (e, f) = same x (ground arith) in
    rw (e, f)
      (s.0, s.1, s.2, Seg-frame m n x (m.next x) xs last after s.3 (λ a i. same a (ground arith)))

-- The last descriptor of a chain is one of it.
pub has-last :
    (m : Links) (before p x : Ptr) (xs : List Ptr) (last after : Ptr)
    → Seg m before p (x ∷ xs) last after
    → has last (x ∷ xs) ≡ true
has-last m before p x [] last after s = ground arith
has-last m before p x (y ∷ ys) last after s =
    ground (arith, has-last m x (m.next x) y ys last after s.3)

pub IsQueue-frame :
    (m n : Links) {q : Queue} (xs ys : List Ptr)
    → IsQueue m q ys
    → SameOutside xs m n
    → ((a : Ptr) → has a ys ≡ true → has a xs ≡ false)
    → IsQueue n q ys
IsQueue-frame m n {q} xs ys is same apart = record {
  chain = Seg-frame m n null q.head ys q.tail null is.chain (λ a i. same a (apart a i));
  distinct = is.distinct;
}

-- The last descriptor of a chain is not NULL.
pub last_ne_null :
    (m : Links) (before p y : Ptr) (ys : List Ptr) (last after : Ptr)
    → Seg m before p (y ∷ ys) last after
    → last ≢ null
last_ne_null m before p y [] last after s = ground arith
last_ne_null m before p y (z ∷ zs) last after s = last_ne_null m y (m.next y) z zs last after s.3
