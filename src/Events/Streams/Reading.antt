-- ===== src/Events/Streams/Reading.antt =====
-- A consumer that reads page after page sees every message once, in order.
use hexastack.Base.{
  ℕ, zero, suc, ◌+◌, ◌*◌, ◌≤◌, ◌<◌, ◌≡◌, refl, ap, sym, String, List, [], ◌∷◌, ◌++◌, length, take,
  drop, arith, max, length-take-le,
}
use native.Mathlib.Nat.{add-zero, zero-add, suc-add}
use hexastack.Base.Int.{ℤ, pos, pos_part}
use hexastack.Events.Streams.{StreamMessage, Adapter, queue, read_partition}
use hexastack.Events.Streams.Sequences.{Numbered}

module _ {P : Type 0} where
  -- `n` calls of `read_partition`, each from where the one before ended, put together.
  pub read_pages : String → ℕ → ℕ → ℕ → ℕ → Adapter P → List (StreamMessage P)
  read_pages st p zero start batch a = []
  read_pages st p (suc n) start batch a =
      read_partition st p (pos start) (pos batch) a ++ read_pages st p n (start + batch) batch a

  take-append-drop : (b : ℕ) (xs : List (StreamMessage P)) → take b xs ++ drop b xs ≡ xs
  take-append-drop zero xs = refl
  take-append-drop (suc b) [] = refl
  take-append-drop (suc b) (x ∷ xs) = ap (◌∷◌ x) (take-append-drop b xs)

  drop-drop : (k b : ℕ) (xs : List (StreamMessage P)) → drop b (drop k xs) ≡ drop (k + b) xs
  drop-drop zero b xs = rw zero-add
  drop-drop (suc k) zero [] = rw add-zero
  drop-drop (suc k) (suc b) [] = rw suc-add
  drop-drop (suc k) b (x ∷ xs) = rw suc-add (drop-drop k b xs)

  drop-all : (k : ℕ) (xs : List (StreamMessage P)) → length xs ≤ k → drop k xs ≡ []
  drop-all zero [] h = refl
  drop-all zero (x ∷ xs) h = absurd (omega arith)
  drop-all (suc k) [] h = refl
  drop-all (suc k) (x ∷ xs) h = drop-all k xs (omega arith)

  read_pages-drop :
      (st : String) (p n start batch : ℕ) (a : Adapter P)
      → 0 < batch
      → length (queue st p a) ≤ start + n * batch
      → read_pages st p n start batch a ≡ drop start (queue st p a)
  unfolding read_pages read_partition
  read_pages-drop st p zero start batch a h e = sym (drop-all start (queue st p a) (omega arith))
  read_pages-drop st p (suc n) start batch a h e =
      let q = queue st p a in
      let whole : max 1 batch ≡ batch = omega arith in
      rw
        (
          whole,
          read_pages-drop st p n (start + batch) batch a h (omega arith),
          ← drop-drop start batch q,
        )
        (take-append-drop batch (drop start q))

  -- With batches of at least one message, enough pages from zero on give the whole partition, each
  -- message once and in order.
  pub read_pages_all :
      (st : String) (p n batch : ℕ) (a : Adapter P)
      → 0 < batch
      → length (queue st p a) ≤ n * batch
      → read_pages st p n 0 batch a ≡ queue st p a
  read_pages_all st p n batch a h e = read_pages-drop st p n 0 batch a h (omega arith)

  Numbered-drop :
      (st : String) (p n k : ℕ) (ms : List (StreamMessage P))
      → Numbered st p n ms
      → Numbered st p (n + k) (drop k ms)
  Numbered-drop st p n zero ms h = rw (add-zero n) h
  Numbered-drop st p n (suc k) [] h = tt
  Numbered-drop st p n (suc k) (m ∷ ms) h =
      let e : suc n + k ≡ n + suc k = omega arith in rw e at (Numbered-drop st p (suc n) k ms h.3)

  Numbered-take :
      (st : String) (p n k : ℕ) (ms : List (StreamMessage P))
      → Numbered st p n ms
      → Numbered st p n (take k ms)
  Numbered-take st p n zero ms h = tt
  Numbered-take st p n (suc k) [] h = tt
  Numbered-take st p n (suc k) (m ∷ ms) h = (h.0, h.1, h.2, Numbered-take st p (suc n) k ms h.3)

  -- A page of a numbered partition holds no more than the batch size, which counts as one at least,
  -- and its messages are numbered from the requested sequence on, a negative one counting as zero.
  read_partition-Numbered :
      (st : String) (p : ℕ) (from batch : ℤ) (a : Adapter P)
      → Numbered st p 0 (queue st p a)
      → Numbered st p (pos_part from) (read_partition st p from batch a)
        × (length (read_partition st p from batch a) ≤ max 1 (pos_part batch))
  unfolding read_partition
  read_partition-Numbered st p from batch a h = (
    Numbered-take st p (pos_part from) (max 1 (pos_part batch)) _
        (rw zero-add at (Numbered-drop st p 0 (pos_part from) (queue st p a) h)),
    length-take-le (max 1 (pos_part batch)) (drop (pos_part from) (queue st p a)),
  )
