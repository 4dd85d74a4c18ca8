-- ===== src/Redis/Memory.antt =====
-- A server that keeps its entries in memory: the laws of the interface can be met, and the
-- witnesses run on it.
use doki_core_backend.Prelude.{
  ℕ, suc, ◌+◌, ◌-◌, ◌≡◌, refl, Option, none, some, if◌then◌else◌, arith,
}
use doki_core_backend.Redis.Keys.{
  Key, Entry, counter, text, items, key_eq, read, read_items, bump, pushed, until,
}
use doki_core_backend.Redis.Server.{Redis, Puts, Answers, alive}

pub record Store : Type 0 where
  pub time : ℕ
  pub cell : Key → Option Entry

abbrev clock : Store → ℕ
clock s = s.time

abbrev entry : Store → Key → Option Entry
entry s = s.cell

abbrev put : Key → Option Entry → Store → Store
put k e s = record { time = s.time; cell = λ j. if key_eq k j then e else s.cell j }

pub put-Puts : (k : Key) (e : Option Entry) (s : Store) → Puts clock entry s k e (put k e s)
put-Puts k e s = record { same_clock = refl; entry_of = λ j. refl }

-- A write that fails where there is no new entry.
abbrev write : Key → Option Entry → Store → Option Store
write k none s = none
write k (some e) s = some (put k (some e) s)

pub write-Answers :
    (k : Key) (e : Option Entry) (s : Store) → Answers clock entry s k e (write k e s)
write-Answers k none s = refl
write-Answers k (some e) s = (put k (some e) s, refl, put-Puts k (some e) s)

abbrev lowered : Option Entry → Option Entry
lowered none = none
lowered (some (counter n x)) = some (counter (n - 1) x)
lowered (some (text k x)) = some (text k x)
lowered (some (items l x)) = some (items l x)

pub decr-Puts :
    (k : Key) (s : Store) (n : ℕ) (x : Option ℕ)
    → entry s k ≡ some (counter (suc n) x)
    → Puts clock entry s k (some (counter n x)) (put k (lowered (s.cell k)) s)
decr-Puts k s n x e = rw e (record { same_clock = refl; entry_of = λ j. ground arith })

abbrev pub memory : Redis
memory = record {
  Store = Store;
  clock = clock;
  entry = entry;
  get = λ k s. read (s.cell k);
  lrange = λ k s. read_items (s.cell k);
  incr = λ k s. write k (bump (s.cell k)) s;
  decr = λ k s. put k (lowered (s.cell k)) s;
  rpush = λ k v s. write k (pushed v (s.cell k)) s;
  expire = λ k t s. put k (until (s.time + t) (s.cell k)) s;
  del = λ k s. put k none s;
  advance = λ d s. record { time = s.time + d; cell = λ k. alive (s.time + d) (s.cell k) };
  get_lem = λ k s. refl;
  lrange_lem = λ k s. refl;
  incr_lem = λ k s. write-Answers k (bump (s.cell k)) s;
  decr_lem = λ k s n x e. decr-Puts k s n x e;
  rpush_lem = λ k v s. write-Answers k (pushed v (s.cell k)) s;
  expire_lem = λ k t s. put-Puts k (until (s.time + suc t) (s.cell k)) s;
  del_lem = λ k s. put-Puts k none s;
  advance_clock = λ d s. refl;
  advance_entry = λ d s k. refl;
}

-- The empty store at time 0.
abbrev pub fresh : Store
fresh = record { time = 0; cell = λ k. none }
