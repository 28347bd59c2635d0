-- ===== src/Events/Streams/Offsets.antt =====
-- A consumer group's offset is the highest sequence that it has acknowledged.
use hexastack.Base.{ℕ, ◌≡◌, refl, ◌≢◌, ◌⊎◌, inl, inr, String, List, [], ◌∷◌, arith, if◌then◌else◌}
use hexastack.Base.Int.{ℤ, ltb_ℤ}
use hexastack.Dict.{
  lookup, insert, string_key, nat_key, pair_key, lookup-insert_self, lookup-insert_ne,
}
use hexastack.Events.Streams.{Adapter, or_empty, ack, get_offset}

-- The acknowledgements of one group on one partition.
pub ack_all : {P : Type 0} → String → String → ℕ → List ℤ → Adapter P → Adapter P
ack_all g st p [] a = a
ack_all g st p (n ∷ ns) a = ack_all g st p ns (ack g st p n a)

abbrev pub max_ℤ : ℤ → ℤ → ℤ
max_ℤ a b = if ltb_ℤ a b then b else a

pub highest : ℤ → List ℤ → ℤ
highest n [] = n
highest n (m ∷ ms) = highest (max_ℤ n m) ms

module _ {P : Type 0} where
  get_offset-ack :
      (g st : String) (p : ℕ) (n : ℤ) (a : Adapter P)
      → get_offset g st p (ack g st p n a) ≡ max_ℤ (get_offset g st p a) n
  unfolding get_offset ack
  get_offset-ack g st p n a =
      let old = or_empty (lookup g a.offsets) in
      ground (
        arith,
        lookup-insert_self g (insert (st, p) n old) a.offsets,
        lookup-insert_self (st, p) n old,
      )

  -- Whatever the order of the acknowledgements, the offset is the highest of them and of the offset
  -- before, so it never falls.
  get_offset-ack_all :
      (g st : String) (p : ℕ) (ns : List ℤ) (a : Adapter P)
      → get_offset g st p (ack_all g st p ns a) ≡ highest (get_offset g st p a) ns
  unfolding ack_all highest
  get_offset-ack_all g st p [] a = refl
  get_offset-ack_all g st p (n ∷ ns) a =
      rw (← get_offset-ack g st p n a) (get_offset-ack_all g st p ns (ack g st p n a))

  -- An acknowledgement moves no other offset: of another group, or of another partition.
  ack_others :
      (g g' st st' : String) (p p' : ℕ) (n : ℤ) (a : Adapter P)
      → (g' ≢ g) ⊎ ◌≢◌ {A = String × ℕ} (st', p') (st, p)
      → get_offset g' st' p' (ack g st p n a) ≡ get_offset g' st' p' a
  unfolding get_offset ack
  ack_others g g' st st' p p' n a (inl other) =
      let old = or_empty (lookup g a.offsets) in
      ground (arith, lookup-insert_ne g' g (insert (st, p) n old) a.offsets other)
  ack_others g g' st st' p p' n a (inr other) =
      let old = or_empty (lookup g a.offsets) in
      elim (string_key.dec g' g) [
        | no m ↦ ground (arith, lookup-insert_ne g' g (insert (st, p) n old) a.offsets m)
        | yes e ↦ rw e (
            ground (
              arith,
              lookup-insert_self g (insert (st, p) n old) a.offsets,
              lookup-insert_ne (st', p') (st, p) n old other,
            ))
      ]
