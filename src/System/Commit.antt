-- ===== src/System/Commit.antt =====
-- The commit phase of tools/simulator/system.py, at the end of each cycle.
use tia_infrastructure.Prelude.{
  ℕ, ◌<◌, ◌≡◌, refl, ◌∙◌, Bool, true, List, [], ◌∷◌, length, All, All-map, All-get_elem?, All-set,
  get_elem?-lt, length-set, set, ◌&&◌, ok,
}
use tia_infrastructure.Interconnect.{is_empty}
use tia_infrastructure.Interconnect.Invariant.{
  IsValid, committed, commit-eq-committed, committed-IsValid,
}
use tia_infrastructure.Store.{Store, commit_at}
use tia_infrastructure.Store.Keeps.{Forwards}
use tia_infrastructure.System.{commit_buffers}

-- What a commit keeps: the number of buffers, their validity, and where they forward to.
pub record Commits (s t : Store) : Type 0 where
  pub same_length : length t ≡ length s
  pub valid : All IsValid t
  pub forwards : (n : ℕ) → All (Forwards n) s → All (Forwards n) t

Commits-trans : {s t u : Store} → Commits s t → Commits t u → Commits s u
Commits-trans a b = record {
  same_length = b.same_length ∙ a.same_length;
  valid = b.valid;
  forwards = λ n h. b.forwards n (a.forwards n h);
}

commit_at_total :
    (r : ℕ) (s : Store)
    → All IsValid s
    → r < length s
    → (t : Store) × (commit_at r s ≡ ok t) × Commits s t
unfolding commit_at
commit_at_total r s v h =
    let (b, e) = get_elem?-lt s r h in
    let w = All-get_elem? IsValid s r v e in
    (
      set s r (committed b),
      rw (e, commit-eq-committed w),
      record {
        same_length = length-set s r (committed b);
        valid = All-set IsValid s r (committed b) v (committed-IsValid w).0;
        forwards =
            λ n f. All-set (Forwards n) s r (committed b) f (All-get_elem? (Forwards n) s r f e);
      },
    )

pub commit_buffers-Commits :
    (rs : List ℕ) (s : Store)
    → All IsValid s
    → All (λ r. r < length s) rs
    → (d : Bool) × (t : Store) × (commit_buffers rs s ≡ ok (d, t)) × Commits s t
unfolding commit_buffers
commit_buffers-Commits [] s v h =
    (true, s, refl, record { same_length = refl; valid = v; forwards = λ n f. f })
commit_buffers-Commits (r ∷ rs) s v (l, ls) =
    let (t, e, c) = commit_at_total r s v l in
    let (b, f) = get_elem?-lt t r (rw c.same_length l) in
    let (d, u, g, c') =
      commit_buffers-Commits rs t c.valid (All-map (λ k q. rw c.same_length q) rs ls) in
    (is_empty b && d, u, rw (e, f, g), Commits-trans c c')

-- In a valid store the commit phase never raises, whatever is staged, even where two modules
-- registered one buffer; every buffer is valid again after it.
pub commit_buffers_total :
    (rs : List ℕ) (s : Store)
    → All IsValid s
    → All (λ r. r < length s) rs
    → (d : Bool) × (t : Store) × (commit_buffers rs s ≡ ok (d, t))
      × (length t ≡ length s)
      × All IsValid t
commit_buffers_total rs s v h =
    let (d, t, e, c) = commit_buffers-Commits rs s v h in (d, t, e, c.same_length, c.valid)
