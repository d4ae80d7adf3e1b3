-- ===== src/System/Halt.antt =====
-- When the event loop of tools/simulator/system.py halts: the flag that the commit phase reads from
-- each registered buffer after its own commit, and the halt registers of the elements.
use native.Mathlib.Decide.{ℕ_discrete}
use mathlib.Core.Path.{subst}
use tia_infrastructure.Prelude.{
  ℕ, ◌≡◌, ◌↔◌, refl, sym, ap, ◌∙◌, Bool, true, false, ◌&&◌, some, List, [], ◌∷◌, length, ◌==◌, All,
  get_elem?, get_elem?-set_self, get_elem?-set_ne, lt_of_get_elem?, get_item, set, ok, >>=-eq-ok,
  ok-injective, inl, inr, arith, Bool-cases,
}
use tia_infrastructure.Interconnect.{Packet, Buffer, is_empty, commit}
use tia_infrastructure.Store.{Store, commit_at, empty_at}
use tia_infrastructure.Router.{ProcessingElement}
use tia_infrastructure.System.{commit_buffers, all_halted}

-- The element's core has executed a halt.
abbrev pub IsHalted : ProcessingElement → Type 0
IsHalted p = p.core.halt_register ≡ true

-- The buffer at a position of the store has no packet.
abbrev pub IsDrained : Store → ℕ → Type 0
IsDrained s r = (b : Buffer) × (get_elem? s r ≡ some b) × (b.deque ≡ [])

-- A buffer with nothing more to commit.
abbrev Settled : Store → ℕ → Buffer → Type 0
Settled s r b = (get_elem? s r ≡ some b) × (b.pending ≡ false)

pub all_halted_iff : (ps : List ProcessingElement) → (all_halted ps ≡ true) ↔ All IsHalted ps
unfolding all_halted
all_halted_iff [] = (λ _. tt, λ _. refl)
all_halted_iff (p ∷ ps) =
    let (f, g) = all_halted_iff ps in
    elim (Bool-cases p.core.halt_register) [
      | inl e ↦ (λ h. (e, f (sym (rw e) ∙ h)), λ h. rw e (g h.1))
      | inr e ↦ (λ h. cc, λ h. cc)
    ]

some-injective {ℓ} : {A : Type ℓ} {x y : A} → some x ≡ some y → x ≡ y
some-injective e = cc

get_item-ok : (s : Store) (r : ℕ) {b : Buffer} → get_item s r ≡ ok b → get_elem? s r ≡ some b
get_item-ok s r e = ground arith

commit-settles : (b : Buffer) {c : Buffer} → commit b ≡ ok c → c.pending ≡ false
unfolding commit
commit-settles b e = ground arith

commit-settled : (b : Buffer) {c : Buffer} → b.pending ≡ false → commit b ≡ ok c → c ≡ b
unfolding commit
commit-settled b h e = ok-injective (sym e ∙ rw h)

commit_at-Settled :
    (s : Store) {t : Store} (r : ℕ) → commit_at r s ≡ ok t → (c : Buffer) × Settled t r c
unfolding commit_at
commit_at-Settled s {t} r e =
    let (b, f, e₁) = >>=-eq-ok (get_item s r) _ e in
    let (c, g, e₂) = >>=-eq-ok (commit b) _ e₁ in
    (
      c,
      (
        ap (λ u. get_elem? u r) (sym (ok-injective e₂))
            ∙ get_elem?-set_self s r c (lt_of_get_elem? s r (get_item-ok s r f)),
        commit-settles b g,
      ),
    )

-- No later commit changes it, not even another one of its own.
commit_at-keeps :
    (s : Store) {t : Store} (k r : ℕ) {b : Buffer}
    → Settled s k b
    → commit_at r s ≡ ok t
    → Settled t k b
unfolding commit_at
commit_at-keeps s {t} k r {b} (h, q) e =
    let (x, f, e₁) = >>=-eq-ok (get_item s r) _ e in
    let (c, g, e₂) = >>=-eq-ok (commit x) _ e₁ in
    let same : get_elem? t k ≡ get_elem? (set s r c) k =
      ap (λ u. get_elem? u k) (sym (ok-injective e₂)) in
    elim (ℕ_discrete r k) [
      | yes i ↦
          let there : get_elem? s k ≡ some x = ap (get_elem? s) (sym i) ∙ get_item-ok s r f in
          let x_b : x ≡ b = some-injective (sym there ∙ h) in
          let c_x : c ≡ x = commit-settled x (ap (λ (y : Buffer). y.pending) x_b ∙ q) g in
          let here : get_elem? (set s r c) k ≡ some c =
            ap (get_elem? (set s r c)) (sym i)
            ∙ get_elem?-set_self s r c (lt_of_get_elem? s r (get_item-ok s r f)) in
          (same ∙ here ∙ ap some (c_x ∙ x_b), q)
      | no n ↦ (same ∙ get_elem?-set_ne s r k c n ∙ h, q)
    ]

commit_buffers-keeps :
    (rs : List ℕ) (s : Store) {t : Store} {d : Bool} (k : ℕ) {b : Buffer}
    → Settled s k b
    → commit_buffers rs s ≡ ok (d, t)
    → Settled t k b
unfolding commit_buffers
commit_buffers-keeps [] s {t} k {b} h e =
    subst (λ (x : Bool × Store). Settled x.1 k b) (ok-injective e) h
commit_buffers-keeps (r ∷ rs) s {t} {d} k {b} h e =
    let (s₁, f, e₁) = >>=-eq-ok (commit_at r s) _ e in
    let (n, g, e₂) = >>=-eq-ok (empty_at r s₁) _ e₁ in
    let ((m, u), i, e₃) = >>=-eq-ok (commit_buffers rs s₁) _ e₂ in
    subst (λ (x : Bool × Store). Settled x.1 k b) (ok-injective e₃)
      (commit_buffers-keeps rs s₁ k (commit_at-keeps s k r h f) i)

is_empty_iff : (c : Buffer) → (is_empty c ≡ true) ↔ (c.deque ≡ [])
is_empty_iff c = nothing c.deque
  where
    nothing : (ps : List Packet) → ((length ps == 0) ≡ true) ↔ (ps ≡ [])
    nothing [] = (λ _. refl, λ _. refl)
    nothing (p ∷ ps) = (λ h. absurd (ground (arith, h)), λ h. cc)

joined :
    (rs : List ℕ) (r : ℕ) (t : Store) (n m : Bool) (c : Buffer)
    → n ≡ is_empty c
    → get_elem? t r ≡ some c
    → (m ≡ true) ↔ All (IsDrained t) rs
    → ((n && m) ≡ true) ↔ All (IsDrained t) (r ∷ rs)
joined rs r t true m c e h (f, g) = (λ q. ((c, h, (is_empty_iff c).0 (sym e)), f q), λ q. g q.1)
joined rs r t false m c e h (f, g) = (
  λ q. cc,
  λ ((b, i, j), _).
      let same : c.deque ≡ [] = ap (λ (x : Buffer). x.deque) (some-injective (sym h ∙ i)) ∙ j in
      e ∙ (is_empty_iff c).1 same,
)

-- The flag of the commit phase says whether every registered buffer is empty after the whole phase,
-- although each is looked at before those behind it commit.
pub commit_buffers_iff :
    (rs : List ℕ) (s : Store) {t : Store} {d : Bool}
    → commit_buffers rs s ≡ ok (d, t)
    → (d ≡ true) ↔ All (IsDrained t) rs
unfolding commit_buffers
commit_buffers_iff [] s e = (λ _. tt, λ _. sym (ap (λ (x : Bool × Store). x.0) (ok-injective e)))
commit_buffers_iff (r ∷ rs) s {t} {d} e =
    let (s₁, f, e₁) = >>=-eq-ok (commit_at r s) _ e in
    let (n, g, e₂) = >>=-eq-ok (empty_at r s₁) _ e₁ in
    let ((m, u), i, e₃) = >>=-eq-ok (commit_buffers rs s₁) _ e₂ in
    let (c, h) = commit_at-Settled s r f in
    let flag : n ≡ is_empty c = ok-injective (sym g ∙ rw h.0) in
    let later = commit_buffers-keeps rs s₁ r h i in
    subst (λ (x : Bool × Store). (x.0 ≡ true) ↔ All (IsDrained x.1) (r ∷ rs)) (ok-injective e₃)
      (joined rs r u n m c flag later.0 (commit_buffers_iff rs s₁ i))
