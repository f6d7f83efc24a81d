-- ===== src/Reorg/Walk.antt =====
-- The walk to the fork point: what it finds, and what its failure means.
use native.Mathlib.Decide.{ℕ_discrete}
use altscan.Prelude.{
  ℕ, zero, suc, ◌+◌, ◌-◌, ◌≤◌, ◌<◌, ◌≡◌, ◌≢◌, refl, sym, subst, ap, Bool, true, false, Option, none,
  some, String, arith, string_eq, if◌then◌else◌,
}
use text.Mathlib.TextEquality.{eq_iff}
use altscan.Failover.Errors.{Thrown}
use altscan.Reorg.{
  Header, Promise, fulfilled, rejected, ◌>>=◌, ReorgDeps, present, header_hash, unresolved_error,
  agree, agrees_at, walk_back, find_fork_point, agrees_with,
}

-- At this height the index and the endpoint hold the same hash.
pub record Agrees (deps : ReorgDeps) (n : ℕ) : Type 0 where
  pub hash : String
  pub header : Header
  pub stored : deps.stored_hash n ≡ fulfilled (some hash)
  pub on_chain : deps.rpc_block n ≡ fulfilled (some header)
  pub same : header.hash ≡ hash
  pub held : hash ≢ ""

pub present-eq-some :
    (o : Option String) (s : String) → present o ≡ some s → (o ≡ some s) × (s ≢ "")
unfolding present
present-eq-some none s e = cc
present-eq-some (some t) s e = ground (arith, eq_iff t "")

pub present_of_ne : (s : String) → s ≢ "" → present (some s) ≡ some s
unfolding present
present_of_ne s ne = ground (arith, eq_iff s "")

agree_sound :
    (s : String) (o : Option Header)
    → agree (some s) (header_hash o) ≡ true
    → (b : Header) × (o ≡ some b) × (b.hash ≡ s)
unfolding present
agree_sound s none e = cc
agree_sound s (some b) e = (b, refl, ground (arith, eq_iff b.hash "", eq_iff b.hash s))

agree_complete : (s t : String) → t ≡ s → s ≢ "" → agree (some s) (present (some t)) ≡ true
agree_complete s t e ne = rw (e, present_of_ne s ne) (ground (arith, eq_iff s s))

pub Agrees-agrees_at :
    (deps : ReorgDeps) (n : ℕ) → Agrees deps n → agrees_at deps n ≡ fulfilled true
unfolding agrees_at
Agrees-agrees_at deps n a = rw a.stored (
    subst (λ q. agrees_with deps n q ≡ fulfilled true) (sym (present_of_ne a.hash a.held))
      (rw a.on_chain (ap fulfilled (agree_complete a.hash a.header.hash a.same a.held))))

module _ (deps : ReorgDeps) (n : ℕ) where
  agreed_of_header :
      (s : String) (o : Option String) (p : Promise (Option Header))
      → deps.stored_hash n ≡ fulfilled o
      → present o ≡ some s
      → deps.rpc_block n ≡ p
      → (p >>= λ rpc. fulfilled (agree (some s) (header_hash rpc))) ≡ fulfilled true
      → Agrees deps n
  agreed_of_header s o (rejected e) st pr rp h = cc
  agreed_of_header s o (fulfilled b) st pr rp h =
      let (held, ne) = present-eq-some o s pr in
      let (header, there, same) = agree_sound s b (ground arith) in
      record {
        hash = s;
        header = header;
        stored = rw (← held) st;
        on_chain = rw (← there) rp;
        same = same;
        held = ne;
      }

  agreed_of_stored :
      (p : Promise (Option String))
      → deps.stored_hash n ≡ p
      → (p >>= λ stored. agrees_with deps n (present stored)) ≡ fulfilled true
      → Agrees deps n
  agreed_of_stored (rejected e) st h = cc
  agreed_of_stored (fulfilled o) st h = go (present o) refl h
    where
      go :
          (q : Option String)
          → present o ≡ q
          → agrees_with deps n q ≡ fulfilled true
          → Agrees deps n
      go none e h' = cc
      go (some s) e h' = agreed_of_header s o (deps.rpc_block n) st e refl h'

  pub agrees_at-Agrees : agrees_at deps n ≡ fulfilled true → Agrees deps n
  unfolding agrees_at
  agrees_at-Agrees h = agreed_of_stored (deps.stored_hash n) refl h

-- What the walk from `n` over `rounds` heights found: the highest height at which the index and the
-- endpoint agree, or that there is none.
pub data Walked (deps : ReorgDeps) (failure : Thrown) (rounds n : ℕ) (result : Promise ℕ)
    : Type 0 where
  found :
      (m : ℕ)
      → result ≡ fulfilled m
      → m ≤ n
      → n < m + rounds
      → Agrees deps m
      → ((k : ℕ) → m < k → k ≤ n → ¬ Agrees deps k)
      → Walked deps failure rounds n result
  nowhere :
      result ≡ rejected failure
      → ((k : ℕ) → k ≤ n → n < k + rounds → ¬ Agrees deps k)
      → Walked deps failure rounds n result
  broken :
      (k : ℕ) (e : Thrown)
      → agrees_at deps k ≡ rejected e
      → result ≡ rejected e
      → Walked deps failure rounds n result

disagrees : (deps : ReorgDeps) (n : ℕ) → agrees_at deps n ≡ fulfilled false → ¬ Agrees deps n
disagrees deps n at a = let yes_at = Agrees-agrees_at deps n a in cc

-- One more height, at which there is no agreement.
Walked-suc :
    (deps : ReorgDeps) (failure : Thrown) (rounds n : ℕ) (result : Promise ℕ)
    → rounds ≤ n
    → ¬ Agrees deps n
    → Walked deps failure rounds (n - 1) result
    → Walked deps failure (suc rounds) n result
Walked-suc deps failure rounds n result h not_here (found m e le lt ag above) =
    found m e (omega arith) (omega arith) ag λ k lt' le'. elim (ℕ_discrete k n) [
      | yes same ↦ subst (λ j. ¬ Agrees deps j) (sym same) not_here
      | no other ↦ above k lt' (omega arith)
    ]
Walked-suc deps failure rounds n result h not_here (nowhere e below) = nowhere e λ k le lt.
    elim (ℕ_discrete k n) [
      | yes same ↦ subst (λ j. ¬ Agrees deps j) (sym same) not_here
      | no other ↦ below k (omega arith) (omega arith)
    ]
Walked-suc deps failure rounds n result h not_here (broken k e at r) = broken k e at r

walk_back-Walked :
    (deps : ReorgDeps) (failure : Thrown) (rounds n : ℕ)
    → rounds ≤ suc n
    → Walked deps failure rounds n (walk_back deps failure rounds n)
unfolding walk_back
walk_back-Walked deps failure zero n h = nowhere refl (λ k le lt. absurd (omega arith))
walk_back-Walked deps failure (suc rounds) n h =
    go (walk_back-Walked deps failure rounds (n - 1) (omega arith)) (agrees_at deps n) refl
  where
    go :
        Walked deps failure rounds (n - 1) (walk_back deps failure rounds (n - 1))
        → (p : Promise Bool) → agrees_at deps n ≡ p
        → Walked deps failure
            (suc rounds)
            n
            (p >>= λ agreed. if agreed then fulfilled n else walk_back deps failure rounds (n - 1))
    go ih (rejected e) at = broken n e at refl
    go ih (fulfilled true) at =
        found n refl (omega arith) (omega arith) (agrees_at-Agrees deps n at)
          (λ k lt le. absurd (omega arith))
    go ih (fulfilled false) at =
        Walked-suc deps failure rounds n _ (omega arith) (disagrees deps n at) ih

-- The three ways in which `findForkPoint` may settle.
pub data ForkPoint (deps : ReorgDeps) (start_from max_depth : ℕ) (result : Promise ℕ) : Type 0 where
  at :
      (m : ℕ)
      → result ≡ fulfilled m
      → m ≤ start_from
      → start_from ≤ m + max_depth
      → Agrees deps m
      → ((k : ℕ) → m < k → k ≤ start_from → ¬ Agrees deps k)
      → ForkPoint deps start_from max_depth result
  none_within :
      result ≡ rejected (unresolved_error start_from (start_from - max_depth) max_depth)
      → ((k : ℕ) → k ≤ start_from → start_from ≤ k + max_depth → ¬ Agrees deps k)
      → ForkPoint deps start_from max_depth result
  read_failed :
      (k : ℕ) (e : Thrown)
      → agrees_at deps k ≡ rejected e
      → result ≡ rejected e
      → ForkPoint deps start_from max_depth result

-- The walk to the fork point settles in one of three ways. It returns the highest height within the
-- depth at which the index and the endpoint hold the same hash; or it throws `UnresolvedForkError`,
-- and then there is no such height within the depth; or it throws the error of a read that failed.
pub find_fork_point-ForkPoint :
    (deps : ReorgDeps) (start_from max_depth : ℕ)
    → ForkPoint deps start_from max_depth (find_fork_point deps start_from max_depth)
unfolding find_fork_point
find_fork_point-ForkPoint deps start_from max_depth =
    go
      (walk_back-Walked deps _ (suc start_from - (start_from - max_depth)) start_from (omega arith))
  where
    go :
        {result : Promise ℕ}
        → Walked deps
            (unresolved_error start_from (start_from - max_depth) max_depth)
            (suc start_from - (start_from - max_depth))
            start_from
            result
        → ForkPoint deps start_from max_depth result
    go (found m e le lt ag above) = at m e le (omega arith) ag above
    go (nowhere e below) = none_within e (λ k le deep. below k le (omega arith))
    go (broken k e f r) = read_failed k e f r
