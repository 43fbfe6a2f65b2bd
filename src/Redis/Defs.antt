-- ===== src/Redis/Defs.antt =====
-- The interface to Redis: commands, replies, databases and their laws.
use vibranium_quadsquad.Base.{
  ℕ, ◌≡◌, ◌≢◌, String, Bool, Option, none, some, List, [], ◌∷◌, if◌then◌else◌, ltb, length, ◌<◌,
  ◌==◌, ◌&&◌, false,
}
use vibranium_quadsquad.Base.Int.{ℤ, pos, leb_ℤ}

-- The members that the program formats with `%d`, `%d:%d` and `%d:%d:%d`: the numbers in them.
pub data Member : Type 0 where
  one : ℕ → Member
  two : ℕ → ℕ → Member
  three : ℕ → ℕ → ℕ → Member

abbrev pub same_member : Member → Member → Bool
same_member (one a) (one b) = a == b
same_member (two a b) (two c d) = a == c && b == d
same_member (three a b c) (three d e f) = a == d && b == e && c == f
same_member _ _ = false

-- The commands, the integer reply of each being read by the caller or dropped.
pub data Command : Type 0 where
  z_rem_range_by_score : String → ℤ → Command
  z_add : String → ℕ → Member → Command
  z_card : String → Command
  p_expire : String → ℕ → Command
  del : String → Command

pub data Reply (A : Type 0) : Type 0 where
  hit : A → Reply A
  nil : Reply A
  fault : Reply A

abbrev pub Entries : Type 0
Entries = List (Member × ℕ)

-- ZREMRANGEBYSCORE key -inf max, on the entries of the key.
abbrev pub drop_upto : ℤ → Entries → Entries
drop_upto c [] = []
drop_upto c ((m, s) ∷ es) =
    let rest = drop_upto c es in if leb_ℤ (pos s) c then rest else (m, s) ∷ rest

-- ZADD of one member: its score is set, and the entries stay ordered by score. Redis orders entries
-- of one score by their members, here the newest of them comes last; nothing reads that order.
abbrev pub remove_member : Member → Entries → Entries
remove_member m [] = []
remove_member m ((n, t) ∷ es) =
    let rest = remove_member m es in if same_member n m then rest else (n, t) ∷ rest

abbrev pub insert_entry : Member → ℕ → Entries → Entries
insert_entry m s [] = (m, s) ∷ []
insert_entry m s ((n, t) ∷ es) =
    if ltb s t then (m, s) ∷ (n, t) ∷ es else (n, t) ∷ insert_entry m s es

abbrev pub z_add_entry : Member → ℕ → Entries → Entries
z_add_entry m s es = insert_entry m s (remove_member m es)

pub record Redis : Type 1 where
  pub Db : Type 0
  pub Bytes : Type 0
  -- whether the server answers the next round trip
  pub answers : Db → Bool
  pub get : String → Db → Reply Bytes
  -- SET with a time to live; `none` is an error
  pub set : String → Bytes → ℕ → Db → Option Db
  pub call : Command → Db → Db × ℕ
  -- the entries of a sorted set, lowest score first
  pub entries : String → Db → Entries

-- Pipeline.Exec: the commands in order, with their replies; `none` is an error.
module _ (r : Redis) where
  abbrev pub call_all : List Command → r.Db → r.Db × List ℕ
  call_all [] d = (d, [])
  call_all (c ∷ cs) d = let (d', n) = r.call c d in let (d'', ns) = call_all cs d' in (d'', n ∷ ns)

  abbrev pub exec : List Command → r.Db → Option (r.Db × List ℕ)
  exec cs d = if r.answers d then some (call_all cs d) else none

-- encoding/json on the value type `S`, which the program stores as bytes.
pub record Codec (r : Redis) (S : Type 0) : Type 0 where
  pub marshal : S → r.Bytes
  pub unmarshal : r.Bytes → Option S
  pub unmarshal-marshal : (s : S) → unmarshal (marshal s) ≡ some s

abbrev pub key_of : Command → String
key_of (z_rem_range_by_score k _) = k
key_of (z_add k _ _) = k
key_of (z_card k) = k
key_of (p_expire k _) = k
key_of (del k) = k

-- Strings: a value that was set is read back, and a command on another key leaves it alone.
pub record StringLaws (r : Redis) : Type 0 where
  pub get-set :
      (k : String) (v : r.Bytes) (ttl : ℕ) (d d' : r.Db)
      → r.set k v ttl d ≡ some d'
      → r.get k d' ≡ hit v
  pub get-del : (k : String) (d : r.Db) → r.get k (r.call (del k) d).0 ≡ nil
  pub get-call_ne :
      (k : String) (cmd : Command) (d : r.Db)
      → key_of cmd ≢ k
      → r.get k (r.call cmd d).0 ≡ r.get k d

-- Sorted sets: what each command makes of the entries of its key, and the count that ZCARD replies.
pub record SetLaws (r : Redis) : Type 0 where
  pub entries-z_rem :
      (k : String) (c : ℤ) (d : r.Db)
      → r.entries k (r.call (z_rem_range_by_score k c) d).0 ≡ drop_upto c (r.entries k d)
  pub entries-z_add :
      (k : String) (s : ℕ) (m : Member) (d : r.Db)
      → r.entries k (r.call (z_add k s m) d).0 ≡ z_add_entry m s (r.entries k d)
  pub entries-z_card :
      (k : String) (d : r.Db)
      → (r.entries k (r.call (z_card k) d).0 ≡ r.entries k d)
        × ((r.call (z_card k) d).1 ≡ length (r.entries k d))
  -- on a time to live that has not passed
  pub entries-p_expire :
      (k : String) (t : ℕ) (d : r.Db)
      → 0 < t
      → r.entries k (r.call (p_expire k t) d).0 ≡ r.entries k d
  pub entries-del : (k : String) (d : r.Db) → r.entries k (r.call (del k) d).0 ≡ []
