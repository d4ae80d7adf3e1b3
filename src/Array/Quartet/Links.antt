-- ===== src/Array/Quartet/Links.antt =====
-- The links of a quartet: four processing elements in a square.
use mathlib.Core.Path.{subst}
use tia_infrastructure.Prelude.{ℕ, ◌≡◌, ◌≢◌, sym, ◌∙◌, some, [], ◌∷◌, get_elem?, ok, arith}
use tia_infrastructure.Direction.{Direction, index, reverse_direction}
use tia_infrastructure.Core.{Core}
use tia_infrastructure.Router.{Router, ProcessingElement}
use tia_infrastructure.Router.Wiring.{HasLinks, Points, connect_processing_elements-Points}
use tia_infrastructure.Array.Quartet.{wire}

-- A router's link goes to a core's input and comes from its output, both of the reverse direction.
pub record Link (d : Direction) (r : Router) (other : Core) : Type 0 where
  pub input : ℕ
  pub output : ℕ
  pub input_there : get_elem? other.input_channel_buffers (index (reverse_direction d)) ≡ some input
  pub output_there :
      get_elem? other.output_channel_buffers (index (reverse_direction d)) ≡ some output
  pub sends : get_elem? r.destination_buffers (index d) ≡ some (some input)
  pub receives : get_elem? r.source_buffers (index d) ≡ some (some output)

Link-Points :
    (d : Direction) {before after : Router} {other : Core}
    → Points d before after other
    → Link d after other
Link-Points d p = record {
  input = p.input;
  output = p.output;
  input_there = p.input_there;
  output_there = p.output_there;
  sends = p.sends;
  receives = p.receives;
}

-- A connection in another direction leaves a link alone.
Link-other :
    (d e : Direction) {before after : Router} {core other : Core}
    → Points e before after core
    → index e ≢ index d
    → Link d before other
    → Link d after other
Link-other d e p n l =
    let (x, y) = p.other_links d n in
    record {
      input = l.input;
      output = l.output;
      input_there = l.input_there;
      output_there = l.output_there;
      sends = x ∙ l.sends;
      receives = y ∙ l.receives;
    }

-- Two elements that are linked both ways, the second to that side of the first.
pub record Joined (d : Direction) (a b : ProcessingElement) : Type 0 where
  pub forth : Link d a.router b.core
  pub back : Link (reverse_direction d) b.router a.core

-- Four software elements with a link for each direction are wired to a square: the two of each row
-- are joined from west to east, the two of each column from north to south, and their cores are as
-- they were.
pub wire-Joined :
    (a b c d : ProcessingElement)
    → HasLinks a
    → HasLinks b
    → HasLinks c
    → HasLinks d
    → (a' : ProcessingElement) × (b' : ProcessingElement) × (c' : ProcessingElement)
      × (d' : ProcessingElement) × (wire (a ∷ b ∷ c ∷ d ∷ []) ≡ ok (a' ∷ b' ∷ c' ∷ d' ∷ []))
      × Joined Direction.east a' b'
      × Joined Direction.east c' d'
      × Joined Direction.south a' c'
      × Joined Direction.south b' d'
      × (a'.core ≡ a.core)
      × (b'.core ≡ b.core)
      × (c'.core ≡ c.core)
      × (d'.core ≡ d.core)
unfolding wire reverse_direction
wire-Joined a b c d ha hb hc hd =
    let (p, e1, p1, p2, p3, p4, p5, p6) =
      connect_processing_elements-Points a b Direction.east ha hb in
    let (q, e2, q1, q2, q3, q4, q5, q6) =
      connect_processing_elements-Points p.0 c Direction.south p5 hc in
    let (r, e3, r1, r2, r3, r4, r5, r6) =
      connect_processing_elements-Points p.1 d Direction.south p6 hd in
    let (s, e4, s1, s2, s3, s4, s5, s6) =
      connect_processing_elements-Points q.1 r.1 Direction.east q6 r6 in
    (
      q.0,
      r.0,
      s.0,
      s.1,
      simp (e1, e2, e3, e4),
      record {
        forth =
            subst (λ (k : Core). Link Direction.east q.0.router k) (sym (r3 ∙ p4))
              (Link-other Direction.east Direction.south q1 (λ e. omega (arith, e))
                (Link-Points Direction.east p1));
        back =
            subst (λ (k : Core). Link Direction.west r.0.router k) (sym (q3 ∙ p3))
              (Link-other Direction.west Direction.south r1 (λ e. omega (arith, e))
                (Link-Points Direction.west p2));
      },
      record {
        forth =
            subst (λ (k : Core). Link Direction.east s.0.router k) (sym s4)
              (Link-Points Direction.east s1);
        back =
            subst (λ (k : Core). Link Direction.west s.1.router k) (sym s3)
              (Link-Points Direction.west s2);
      },
      record {
        forth =
            subst (λ (k : Core). Link Direction.south q.0.router k) (sym (s3 ∙ q4))
              (Link-Points Direction.south q1);
        back =
            subst (λ (k : Core). Link Direction.north s.0.router k) (sym q3)
              (Link-other Direction.north Direction.east s1 (λ e. omega (arith, e))
                (Link-Points Direction.north q2));
      },
      record {
        forth =
            subst (λ (k : Core). Link Direction.south r.0.router k) (sym (s4 ∙ r4))
              (Link-Points Direction.south r1);
        back =
            subst (λ (k : Core). Link Direction.north s.1.router k) (sym r3)
              (Link-other Direction.north Direction.west s2 (λ e. omega (arith, e))
                (Link-Points Direction.north r2));
      },
      q3 ∙ p3,
      r3 ∙ p4,
      s3 ∙ q4,
      s4 ∙ r4,
    )
