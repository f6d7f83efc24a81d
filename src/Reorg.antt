-- ===== src/Reorg.antt =====
-- apps/indexer/src/reorg-handler.ts: detection of a reorganised chain, the walk to the fork point, the
-- check pinned to one endpoint, and the rollback of the index. One check reads the chain and the
-- stored hashes through `ReorgDeps`, functions of the height whose result may be an error; the RPC
-- endpoints and the reading of the `blocks` table are behind them. An empty hash counts as missing,
-- as in the source. Logging is left out.
mod Rollback
pub mod Walk
pub mod Detect
pub mod Rejections
pub mod Pinned
pub mod Unwind
pub mod Crash
mod Tests
unfoldable pub use Rollback.*
use altscan.Prelude.{
  ℕ, zero, suc, ◌+◌, ◌-◌, ◌≤◌, min, max, Bool, true, false, not, ◌&&◌, ◌||◌, List, [], ◌∷◌, ◌++◌,
  Option, none, some, String, ltb, leb, ◌==◌, ◌===◌, string_eq, nat_eq, if◌then◌else◌, length, add,
  filter_by, map,
}
use altscan.Health.{Provider, EndpointHealth, Index, reorg}
use altscan.Failover.{
  Settled, value, failed, timed_out, Ended, returned, threw, Run, read_with_failover,
}
use altscan.Failover.Errors.{
  Thrown, Payload, plain, unresolved_fork, new_error, mark_not_endpoint_fault,
}
use altscan.Db.{Db, Row, BlockRow, PoisonBlock, IndexGap}

pub record Header : Type 0 where
  pub hash : String
  pub parent_hash : String

-- A promise: it fulfils or rejects.
pub data Promise {ℓ} (A : Type ℓ) : Type ℓ where
  fulfilled : A → Promise A
  rejected : Thrown → Promise A

infixl 5 ◌>>=◌
abbrev pub ◌>>=◌ {ℓ κ} : {A : Type ℓ} {B : Type κ} → Promise A → (A → Promise B) → Promise B
fulfilled a >>= f = f a
rejected e >>= f = rejected e

pub record ReorgDeps : Type 0 where
  pub stored_hash : ℕ → Promise (Option String)
  pub rpc_block : ℕ → Promise (Option Header)

pub data ReorgCheck : Type 0 where
  no_reorg : ReorgCheck
  reorg_at : (fork_point : ℕ) → ReorgCheck

-- `if (!hash) …`: the hash, if it is there and not empty.
unfoldable pub present : Option String → Option String
present none = none
present (some s) = if s === "" then none else some s

abbrev pub header_hash : Option Header → Option String
header_hash none = none
header_hash (some b) = present (some b.hash)

-- `new UnresolvedForkError(startFrom, floor, maxDepth)`
abbrev pub unresolved_error : ℕ → ℕ → ℕ → Thrown
unresolved_error start_from floor max_depth = record new_error {
  payload = unresolved_fork start_from floor max_depth;
}

-- Both hashes are there and are the same.
abbrev pub agree : Option String → Option String → Bool
agree (some stored) (some rpc) = rpc === stored
agree _ _ = false

-- One round of `findForkPoint`: a height whose row or header is missing is passed over.
abbrev pub agrees_with : ReorgDeps → ℕ → Option String → Promise Bool
agrees_with deps n none = fulfilled false
agrees_with deps n (some hash) =
    deps.rpc_block n >>= λ rpc. fulfilled (agree (some hash) (header_hash rpc))

pub agrees_at : ReorgDeps → ℕ → Promise Bool
agrees_at deps n = deps.stored_hash n >>= λ stored. agrees_with deps n (present stored)

-- Its loop, `rounds` heights from `n` downwards.
pub walk_back : ReorgDeps → (failure : Thrown) → (rounds n : ℕ) → Promise ℕ
walk_back deps failure zero n = rejected failure
walk_back deps failure (suc rounds) n =
    let rest = walk_back deps failure rounds (n - 1) in
    agrees_at deps n >>= λ found. if found then fulfilled n else rest

pub find_fork_point : ReorgDeps → (start_from max_depth : ℕ) → Promise ℕ
unfolding walk_back
find_fork_point deps start_from max_depth =
    let floor = start_from - max_depth in
    walk_back deps (unresolved_error start_from floor max_depth) (suc start_from - floor) start_from

-- Whether the header of the next block, or of the tip itself, agrees with the stored hash.
abbrev pub tip_consistent : String → Option Header → Bool
tip_consistent stored none = true
tip_consistent stored (some tip) = tip.hash === stored

abbrev pub boundary : ReorgDeps → ℕ → String → Option Header → Promise Bool
boundary deps last_indexed stored (some next) = fulfilled (next.parent_hash === stored)
boundary deps last_indexed stored none =
    deps.rpc_block last_indexed >>= λ tip. fulfilled (tip_consistent stored tip)

abbrev pub check_tip : ReorgDeps → (last_indexed max_depth : ℕ) → Option String → Promise ReorgCheck
check_tip deps last_indexed max_depth none = fulfilled no_reorg
check_tip deps last_indexed max_depth (some hash) = deps.rpc_block (last_indexed + 1) >>= λ next.
    boundary deps last_indexed hash next >>= λ consistent.
    if consistent
    then fulfilled no_reorg
    else find_fork_point deps last_indexed max_depth >>= λ fork_point.
        fulfilled (reorg_at fork_point)

pub detect_reorg : ReorgDeps → (last_indexed max_depth : ℕ) → Promise ReorgCheck
detect_reorg deps last_indexed max_depth =
    if leb last_indexed 1
    then fulfilled no_reorg
    else deps.stored_hash last_indexed >>= λ stored.
        check_tip deps last_indexed max_depth (present stored)

-- The variables of `detectReorgPinned` that its callback writes.
pub record Unresolved : Type 0 where
  pub unresolved : List Provider
  pub floor : ℕ

abbrev pub note_unresolved : Provider → Payload → Unresolved → Unresolved
note_unresolved p plain u = u
note_unresolved p (unresolved_fork _ floor _) u = record {
  unresolved = add p u.unresolved;
  floor = floor;
}

-- When the check of one endpoint settles: before the timeout, after it but before the whole call
-- ends (it is abandoned, not cancelled, so it may still write the variables), or never.
pub data Timing : Type 0 where
  in_time late never : Timing

abbrev pub note_rejection : Provider → Promise ReorgCheck → Unresolved → Unresolved
note_rejection p (fulfilled c) u = u
note_rejection p (rejected e) u = note_unresolved p e.payload u

-- What the callback on one endpoint settles with, if it settles in time.
abbrev pub settled_check : Timing → Promise ReorgCheck → Settled ReorgCheck
settled_check in_time (fulfilled c) = value c
settled_check in_time (rejected e) = failed e
settled_check _ check = timed_out

abbrev pub noted : Timing → Provider → Promise ReorgCheck → Unresolved → Unresolved
noted never p check u = u
noted _ p check u = note_rejection p check u

abbrev pub conclude :
    (providers : List Provider) → Unresolved → Ended ReorgCheck → Promise ReorgCheck
conclude providers u (returned c) = fulfilled c
conclude providers u (threw e) =
    let needed = min 2 (length providers) in
    if length u.unresolved == 0
    then rejected e
    else if leb needed (length u.unresolved)
    then fulfilled (reorg_at u.floor)
    else rejected e

pub detect_reorg_pinned :
    (clock : ℕ → ℕ)
    → List Provider
    → Index
    → (deps_for : Provider → ReorgDeps) → (timing : Provider → Timing)
    → (last_indexed max_depth : ℕ) → Option EndpointHealth
    → Promise ReorgCheck
detect_reorg_pinned clock providers start_idx deps_for timing last_indexed max_depth health =
    let check = λ (p : Provider). detect_reorg (deps_for p) last_indexed max_depth in
    let run =
      read_with_failover
        (λ p u. (settled_check (timing p) (check p), noted (timing p) p (check p) u)) reorg clock
        providers start_idx health (record { unresolved = []; floor = 0 }) in
    conclude providers run.state run.ended

abbrev pub tag_rejection {ℓ} : {A : Type ℓ} → Promise A → Promise A
tag_rejection (fulfilled a) = fulfilled a
tag_rejection (rejected e) = rejected (mark_not_endpoint_fault e)

-- `makeReorgDepsFrom`: the bounded query of the `blocks` table is `select_hash`.
pub make_reorg_deps_from :
    (select_hash : ℕ → Promise (Option String))
    → (rpc_block : ℕ → Promise (Option Header)) → ReorgDeps
make_reorg_deps_from select_hash rpc_block = record {
  stored_hash = λ n. tag_rejection (select_hash n);
  rpc_block = rpc_block;
}

-- `REORG_DEPTH`: a parsed positive integer wins over the chain's default.
pub resolve_reorg_depth : (chain_default : ℕ) → (parsed : Option ℕ) → ℕ
resolve_reorg_depth chain_default none = chain_default
resolve_reorg_depth chain_default (some n) = if ltb 0 n then n else chain_default
