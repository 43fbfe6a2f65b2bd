-- ===== src/Redis/Model.antt =====
-- A Redis in memory that always answers and expires no key: it meets the laws of Redis.antt.
use vibranium_quadsquad.Base.{
  ℕ, ◌≡◌, ◌≢◌, refl, String, true, Option, none, some, List, [], arith, lookup, insert, delete,
  lookup-insert, lookup-delete, eq_iff, length,
}
use vibranium_quadsquad.Redis.Defs.{
  Redis, Codec, StringLaws, SetLaws, Reply, hit, nil, Command, Entries, drop_upto, z_add_entry,
  z_rem_range_by_score, z_add, z_card, p_expire, del, key_of,
}

pub record Db (S : Type 0) : Type 0 where
  pub values : List (String × S)
  pub sets : List (String × Entries)

abbrev pub or_empty : Option Entries → Entries
or_empty none = []
or_empty (some es) = es

module _ {S : Type 0} where
  abbrev pub reply_of : Option S → Reply S
  reply_of none = nil
  reply_of (some s) = hit s

  abbrev pub entries_of : String → Db S → Entries
  entries_of k d = or_empty (lookup k d.sets)

  abbrev pub run : Command → Db S → Db S × ℕ
  run (z_rem_range_by_score k c) d =
      (record d { sets = insert k (drop_upto c (entries_of k d)) d.sets }, 0)
  run (z_add k s m) d = (record d { sets = insert k (z_add_entry m s (entries_of k d)) d.sets }, 1)
  run (z_card k) d = (d, length (entries_of k d))
  run (p_expire k t) d = (d, 1)
  run (del k) d = (record { values = delete k d.values; sets = delete k d.sets }, 1)

abbrev pub memory : Type 0 → Redis
memory S = record {
  Db = Db S;
  Bytes = S;
  answers = λ d. true;
  get = λ k d. reply_of (lookup k d.values);
  set = λ k v ttl d. some (record d { values = insert k v d.values });
  call = run;
  entries = entries_of;
}

abbrev pub plain : (S : Type 0) → Codec (memory S) S
plain S = record { marshal = λ s. s; unmarshal = some; unmarshal-marshal = λ s. refl }

get-set_lem :
    {S : Type 0} (k : String) (v : S) (ttl : ℕ) (d d' : Db S)
    → (memory S).set k v ttl d ≡ some d'
    → (memory S).get k d' ≡ hit v
get-set_lem k v ttl d d' e = ground (arith, lookup-insert k k v d.values, eq_iff k k)

get-call_ne_lem :
    {S : Type 0} (k : String) (c : Command) (d : Db S)
    → key_of c ≢ k
    → (memory S).get k (run c d).0 ≡ (memory S).get k d
get-call_ne_lem k (z_rem_range_by_score j c) d h = refl
get-call_ne_lem k (z_add j s m) d h = refl
get-call_ne_lem k (z_card j) d h = refl
get-call_ne_lem k (p_expire j t) d h = refl
get-call_ne_lem k (del j) d h = ground (arith, lookup-delete j k d.values, eq_iff j k)

pub memory-StringLaws : (S : Type 0) → StringLaws (memory S)
memory-StringLaws S = record {
  get-set = get-set_lem;
  get-del = λ k d. ground (arith, lookup-delete k k d.values, eq_iff k k);
  get-call_ne = get-call_ne_lem;
}

pub memory-SetLaws : (S : Type 0) → SetLaws (memory S)
memory-SetLaws S = record {
  entries-z_rem =
      λ k c d. ground (arith, lookup-insert k k (drop_upto c (entries_of k d)) d.sets, eq_iff k k);
  entries-z_add = λ k s m d.
      ground (arith, lookup-insert k k (z_add_entry m s (entries_of k d)) d.sets, eq_iff k k);
  entries-z_card = λ k d. (refl, refl);
  entries-p_expire = λ k t d h. refl;
  entries-del = λ k d. ground (arith, lookup-delete k k d.sets, eq_iff k k);
}
