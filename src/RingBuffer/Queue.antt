-- ===== src/RingBuffer/Queue.antt =====
-- clash-netstack/src/ring_buffer.rs: which queue of bytes a ring holds.
use clash_rs.Prelude.{
  subst, ℕ, ◌+◌, ◌<◌, List, [], ◌++◌, ◌≡◌, refl, sym, length, length-append, length-replicate,
  replicate, arith,
}
use clash_rs.RingBuffer.{Ring, new, available_space, available_data}

-- The ring's bytes in order. In a straight ring the queue lies between `a` and `b`; in a wrapped one
-- it starts at the end of the buffer and goes on at its beginning, around the gap `g`.
abbrev pub straight_ring : (a q b : List ℕ) → Ring
straight_ring a q b = record {
  buffer = a ++ (q ++ b);
  capacity = length a + (length q + length b);
  write_pos = length a + length q;
  read_pos = length a;
}

abbrev pub wrapped_ring : (q₂ g q₁ : List ℕ) → Ring
wrapped_ring q₂ g q₁ = record {
  buffer = q₂ ++ (g ++ q₁);
  capacity = length q₂ + (length g + length q₁);
  write_pos = length q₂;
  read_pos = length q₂ + length g;
}

pub data Holds : Ring → List ℕ → Type 0 where
  straight : (a q b : List ℕ) → 0 < length b → Holds (straight_ring a q b) q
  wrapped :
      (q₂ g q₁ : List ℕ) → 0 < length g → 0 < length q₁ → Holds (wrapped_ring q₂ g q₁) (q₁ ++ q₂)

module _ {r : Ring} where
  pub Holds-straight :
      (a q b : List ℕ)
      → 0 < length b
      → r.buffer ≡ a ++ (q ++ b)
      → r.capacity ≡ length a + (length q + length b)
      → r.write_pos ≡ length a + length q
      → r.read_pos ≡ length a
      → Holds r q
  Holds-straight a q b h e₁ e₂ e₃ e₄ =
      subst (λ r'. Holds r' q)
        (λ i. record {
          buffer = sym e₁ i;
          capacity = sym e₂ i;
          write_pos = sym e₃ i;
          read_pos = sym e₄ i;
        })
        (straight a q b h)

  pub Holds-wrapped :
      (q₂ g q₁ : List ℕ)
      → 0 < length g
      → 0 < length q₁
      → r.buffer ≡ q₂ ++ (g ++ q₁)
      → r.capacity ≡ length q₂ + (length g + length q₁)
      → r.write_pos ≡ length q₂
      → r.read_pos ≡ length q₂ + length g
      → Holds r (q₁ ++ q₂)
  Holds-wrapped q₂ g q₁ h h' e₁ e₂ e₃ e₄ =
      subst (λ r'. Holds r' (q₁ ++ q₂))
        (λ i. record {
          buffer = sym e₁ i;
          capacity = sym e₂ i;
          write_pos = sym e₃ i;
          read_pos = sym e₄ i;
        })
        (wrapped q₂ g q₁ h h')

-- How much room there is.
pub available_space-Holds :
    {r : Ring} {q : List ℕ} → Holds r q → available_space r + (length q + 1) ≡ r.capacity
available_space-Holds (straight a q b hb) = ground arith
available_space-Holds (wrapped q₂ g q₁ hg hq) = ground (arith, length-append q₁ q₂)

pub available_data-Holds : {r : Ring} {q : List ℕ} → Holds r q → available_data r ≡ length q
available_data-Holds (straight a q b hb) = ground arith
available_data-Holds (wrapped q₂ g q₁ hg hq) = ground (arith, length-append q₁ q₂)

-- A new ring with room for at least one byte holds nothing.
pub new-Holds : (capacity : ℕ) → 0 < capacity → Holds (new capacity) []
unfolding new
new-Holds capacity h =
    let zeros : List ℕ = replicate capacity 0 in
    let len : length zeros ≡ capacity = length-replicate capacity _ in
    Holds-straight [] [] zeros (omega (arith, len)) refl (omega (arith, len)) refl refl
