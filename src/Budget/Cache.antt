-- ===== src/Budget/Cache.antt =====
-- budget/cache.py: the snapshots in memory, the least recently used first. Reads of the clock are
-- arguments.
pub mod Put
pub mod History
pub mod Refinement
use lumen_ai_support_agent.Prelude.{
  Bool, List, Option, [], if◌then◌else◌, leb, length, ltb, none, some, ℕ, ◌++◌, ◌+◌, ◌∷◌,
}
use lumen_ai_support_agent.Prelude.Table.{delete_where, exists, find, update_first}
use lumen_ai_support_agent.Budget.Models.{BudgetDb, Key, TenantBudgetSnapshot, key_eq}
use lumen_ai_support_agent.Budget.Repository.{get_or_refresh}

pub record Entry : Type 0 where
  pub key : Key
  pub expires_at : ℕ
  pub snap : TenantBudgetSnapshot

pub record SnapshotCache : Type 0 where
  pub ttl_s : ℕ
  pub maxsize : ℕ
  pub entries : List Entry

abbrev pub at_key : Key → Entry → Bool
at_key key e = key_eq e.key key

-- `move_to_end` of an entry that is there
abbrev pub move_to_end : Entry → List Entry → List Entry
move_to_end e entries = delete_where (at_key e.key) entries ++ e ∷ []

unfoldable pub get : ℕ → Key → SnapshotCache → Option TenantBudgetSnapshot × SnapshotCache
get now key c = elim (find (at_key key) c.entries) [
  | none ↦ (none, c)
  | some e ↦
      if leb e.expires_at now
      then (none, record c { entries = delete_where (at_key key) c.entries })
      else (some e.snap, record c { entries = move_to_end e c.entries })
]

-- `while len(self._cache) > self._maxsize: popitem(last=False)`
unfoldable pub evict : ℕ → List Entry → List Entry
evict maxsize [] = []
evict maxsize (e ∷ es) =
    let rest = evict maxsize es in if ltb maxsize (length (e ∷ es)) then rest else e ∷ es

-- The assignment of an entry: in place where the key is there, at the end otherwise.
abbrev pub assign : Entry → List Entry → List Entry
assign e entries =
    if exists (at_key e.key) entries
    then update_first (at_key e.key) (λ x. e) entries
    else entries ++ e ∷ []

abbrev pub touch : Key → List Entry → List Entry
touch key entries = elim (find (at_key key) entries) [
  | none ↦ entries
  | some e ↦ move_to_end e entries
]

unfoldable pub put : ℕ → Key → TenantBudgetSnapshot → SnapshotCache → SnapshotCache
unfolding evict
put now key snap c =
    let entry : Entry = record { key = key; expires_at = now + c.ttl_s; snap = snap } in
    record c { entries = evict c.maxsize (assign entry (touch key c.entries)) }

unfoldable pub invalidate : Key → SnapshotCache → SnapshotCache
invalidate key c = record c { entries = delete_where (at_key key) c.entries }

unfoldable pub clear : SnapshotCache → SnapshotCache
clear c = record c { entries = [] }

-- `get_or_load_async`, with the tables that it reads and may refresh
unfoldable pub get_or_load :
    ℕ → Key → ℕ → SnapshotCache × BudgetDb → TenantBudgetSnapshot × (SnapshotCache × BudgetDb)
unfolding get put get_or_refresh
get_or_load now key period_starts_at (c, db) =
    let (cached, c') = get now key c in
    elim cached [
      | some snap ↦ (snap, (c', db))
      | none ↦
          let (snap, db') = get_or_refresh key period_starts_at db in
          (snap, (put now key snap c', db'))
    ]
