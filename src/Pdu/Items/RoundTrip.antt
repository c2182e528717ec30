-- ===== src/Pdu/Items/RoundTrip.antt =====
-- The loops over a payload and a sequence of encoded items.
use sonic_snmpagent.Prelude.{
  ℕ, zero, suc, ◌+◌, ◌≤◌, ◌<◌, ◌≡◌, ◌≢◌, refl, ◌∙◌, arith, List, [], ◌∷◌, ◌++◌, length, drop,
  Result, ok, err, out_of_fuel, ◌>>=◌, Exn, Result-cases, bind-ok-eq-err, Bool-cases, inl, inr, ltb,
  lt→ltb, length-append, length-drop, drop-append,
}
use mathlib.Core.List.{append_assoc}
use sonic_snmpagent.Pdu.Items.{read_items}

module _ {A : Type 0} (read_one : List ℕ → Result (A × ℕ)) where
  -- An item, the bytes that were written for it, and how it is read back.
  pub record Item : Type 0 where
    pub item : A
    pub bytes : List ℕ
    pub nonempty : 0 < length bytes
    pub reads : (more : List ℕ) → read_one (bytes ++ more) ≡ ok (item, length bytes)

  abbrev pub items_of : List Item → List A
  items_of [] = []
  items_of (x ∷ xs) = x.item ∷ items_of xs

  abbrev pub bytes_of : List Item → List ℕ
  bytes_of [] = []
  bytes_of (x ∷ xs) = x.bytes ++ bytes_of xs

  read_items_stop :
      (fuel limit : ℕ) (bs : List ℕ)
      → length bs ≤ fuel
      → read_items read_one fuel limit limit bs ≡ ok ([], bs)
  unfolding read_items
  read_items_stop fuel limit [] h = refl
  read_items_stop zero limit (b ∷ bs) h = absurd (omega arith)
  read_items_stop (suc fuel) limit (b ∷ bs) h = ground arith

  read_items_step :
      (fuel limit read n : ℕ) (a : A) (bs : List ℕ)
      → 0 < length bs
      → read_one bs ≡ ok (a, n)
      → read < limit
      → read_items read_one (suc fuel) limit read bs ≡ (
          read_items read_one fuel limit (read + n) (drop n bs) >>= λ (items, rest).
          ok (a ∷ items, rest))
  unfolding read_items
  read_items_step fuel limit read n a [] pos e l = absurd (omega arith)
  read_items_step fuel limit read n a (b ∷ bs) pos e l = rw (lt→ltb read limit l, e)

  -- Items whose bytes fill the limit are all read, and what follows them is left.
  pub read_items-bytes_of :
      (fuel limit read : ℕ) (xs : List Item) (more : List ℕ)
      → read + length (bytes_of xs) ≡ limit
      → length (bytes_of xs ++ more) ≤ fuel
      → read_items read_one fuel limit read (bytes_of xs ++ more) ≡ ok (items_of xs, more)
  read_items-bytes_of fuel limit read [] more e h =
      let same : read ≡ limit = omega arith in rw same (read_items_stop fuel limit more h)
  read_items-bytes_of zero limit read (x ∷ xs) more e h = absurd (
      omega (
        arith,
        x.nonempty,
        length-append x.bytes (bytes_of xs),
        length-append (x.bytes ++ bytes_of xs) more,
      ))
  read_items-bytes_of (suc fuel) limit read (x ∷ xs) more e h =
      let size = length-append x.bytes (bytes_of xs) in
      let total = length-append (x.bytes ++ bytes_of xs) more in
      let tail = length-append (bytes_of xs) more in
      rw append_assoc (
        read_items_step fuel limit read (length x.bytes) x.item (x.bytes ++ (bytes_of xs ++ more))
          (omega (arith, x.nonempty, length-append x.bytes (bytes_of xs ++ more)))
          (x.reads (bytes_of xs ++ more)) (omega (arith, x.nonempty))
        ∙ rw
            (
              drop-append (length x.bytes) x.bytes (bytes_of xs ++ more) refl,
              read_items-bytes_of fuel limit (read + length x.bytes) xs more (omega arith)
                  (omega (arith, x.nonempty)),
            )
            refl)

  -- With as much fuel as bytes the loop ends, if each item takes a byte at least.
  pub read_items-ne-out_of_fuel :
      ((bs : List ℕ) (a : A) (n : ℕ) → read_one bs ≡ ok (a, n) → 0 < n)
      → ((bs : List ℕ) → read_one bs ≢ err out_of_fuel)
      → (fuel limit read : ℕ) (bs : List ℕ) → length bs ≤ fuel
      → read_items read_one fuel limit read bs ≢ err out_of_fuel
  unfolding read_items
  read_items-ne-out_of_fuel grows ends fuel limit read [] h = λ p. cc
  read_items-ne-out_of_fuel grows ends zero limit read (b ∷ bs) h = absurd (omega arith)
  read_items-ne-out_of_fuel grows ends (suc fuel) limit read (b ∷ bs) h =
      elim (Bool-cases (ltb read limit)) [
        | inr stop ↦ rw stop (λ p. cc)
        | inl more ↦ elim (Result-cases (read_one (b ∷ bs))) [
          | inl ((a, n), e) ↦
              let pos = grows (b ∷ bs) a n e in
              let rest = drop n (b ∷ bs) in
              rw (more, e)
                λ p.
                  read_items-ne-out_of_fuel grows ends fuel limit (read + n) rest
                    (omega (arith, pos, length-drop n (b ∷ bs)))
                    (bind-ok-eq-err (read_items read_one fuel limit (read + n) rest) _ out_of_fuel
                      p)
          | inr (x, e) ↦ rw (more, e) λ p. ends (b ∷ bs) (e ∙ p_of x p)
        ]
      ]
    where
      p_of :
          (x : Exn)
          → ◌≡◌ {A = Result (List A × List ℕ)} (err x) (err out_of_fuel)
          → ◌≡◌ {A = Result (A × ℕ)} (err x) (err out_of_fuel)
      p_of x p = cc
