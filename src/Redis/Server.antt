-- ===== src/Redis/Server.antt =====
-- The commands of the Redis server as an interface, with their documented effect on the entries.
-- No command changes the server's clock; only the passage of time does.
use doki_core_backend.Prelude.{ℕ, suc, ◌+◌, ◌≡◌, List, Option, none, some, if◌then◌else◌, leb}
use doki_core_backend.Redis.Keys.{
  Key, Entry, counter, text, items, Reply, key_eq, read, read_items, bump, pushed, until,
}

-- The entry that is left of one when the clock shows `t`.
abbrev pub alive : ℕ → Option Entry → Option Entry
alive t none = none
alive t (some (counter n none)) = some (counter n none)
alive t (some (counter n (some x))) = if leb x t then none else some (counter n (some x))
alive t (some (text k none)) = some (text k none)
alive t (some (text k (some x))) = if leb x t then none else some (text k (some x))
alive t (some (items l none)) = some (items l none)
alive t (some (items l (some x))) = if leb x t then none else some (items l (some x))

module _ {Store : Type 0} (clock : Store → ℕ) (entry : Store → Key → Option Entry) where
  -- `s'` is `s` but for the entry of `k`, which is `e`.
  pub record Puts (s : Store) (k : Key) (e : Option Entry) (s' : Store) : Type 0 where
    pub same_clock : clock s' ≡ clock s
    pub entry_of : (j : Key) → entry s' j ≡ (if key_eq k j then e else entry s j)

  -- A write that leaves the entry `e`, or fails and changes nothing.
  abbrev pub Answers : Store → Key → Option Entry → Option Store → Type 0
  Answers s k none r = r ≡ none
  Answers s k (some e) r = (s' : Store) × (r ≡ some s') × Puts s k (some e) s'

pub record Redis : Type 1 where
  pub Store : Type 0
  pub clock : Store → ℕ
  pub entry : Store → Key → Option Entry
  pub get : Key → Store → Reply
  pub lrange : Key → Store → Option (List Key)
  pub incr : Key → Store → Option Store
  pub decr : Key → Store → Store
  pub rpush : Key → Key → Store → Option Store
  pub expire : Key → ℕ → Store → Store
  pub del : Key → Store → Store
  pub advance : ℕ → Store → Store
  pub get_lem : (k : Key) (s : Store) → get k s ≡ read (entry s k)
  pub lrange_lem : (k : Key) (s : Store) → lrange k s ≡ read_items (entry s k)
  pub incr_lem : (k : Key) (s : Store) → Answers clock entry s k (bump (entry s k)) (incr k s)
  -- Of DECR the scripts rely on positive counters only.
  pub decr_lem :
      (k : Key) (s : Store) (n : ℕ) (x : Option ℕ)
      → entry s k ≡ some (counter (suc n) x)
      → Puts clock entry s k (some (counter n x)) (decr k s)
  pub rpush_lem :
      (k v : Key) (s : Store) → Answers clock entry s k (pushed v (entry s k)) (rpush k v s)
  pub expire_lem :
      (k : Key) (t : ℕ) (s : Store)
      → Puts clock entry s k (until (clock s + suc t) (entry s k)) (expire k (suc t) s)
  pub del_lem : (k : Key) (s : Store) → Puts clock entry s k none (del k s)
  pub advance_clock : (d : ℕ) (s : Store) → clock (advance d s) ≡ clock s + d
  pub advance_entry :
      (d : ℕ) (s : Store) (k : Key) → entry (advance d s) k ≡ alive (clock s + d) (entry s k)
