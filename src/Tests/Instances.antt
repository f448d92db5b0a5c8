-- ===== src/Tests/Instances.antt =====
-- Concrete stand-ins for the parameters: tenths for floats, functions for Redis, an insertion sort
-- for MongoDB's cursor.
use mottainai_ia.Base.{
  All-map, Pairwise, ℕ, suc, ◌+◌, ◌-◌, ◌*◌, ◌/◌, ◌≡◌, ◌==◌, ◌∙◌, refl, ap, Bool, true, false, not,
  List, [], ◌∷◌, Option, none, some, if◌then◌else◌, ltb, leb, length, take, drop, count, keep, min,
  arith,
}
use mottainai_ia.Base.Int.{pos, leb_ℤ}
use mottainai_ia.Base.Sorting.{
  sort, sort-count, sort-length, Descending, sort-Descending, take-Descending, drop-lower,
  take-drop-count, length-take,
}
use mottainai_ia.Base.Floats.{Floats, IsOrdered}
use mottainai_ia.Text.Case.{Str}
use mottainai_ia.Text.Search.{str_eq, str_eq_refl}
use mottainai_ia.Cache.Notifications.{Notification, View, Inboxes, put, or_zero}
use mottainai_ia.Cache.SortedSets.{SortedSets, Entry}
use mottainai_ia.Cache.Idempotency.{KeyStore}
use mottainai_ia.Memory.Documents.{Message}
use mottainai_ia.Memory.History.{Cursor, NoNewer}

abbrev pub tenths : Floats
tenths = record {
  F = ℕ;
  lt = ltb;
  le = leb;
  zero_point = 0;
  one_point = 10;
  seven_tenths = 7;
  ratio = λ m n. m * 10 / n;
}

pub tenths-IsOrdered : IsOrdered tenths
tenths-IsOrdered = record {
  lt_irrefl = λ a. ground arith;
  lt_trans = λ a b c h g. ground arith;
  lt_cotrans = λ a b c h g. ground arith;
}

pub tenths-nonneg : (m n : ℕ) → tenths.lt (tenths.ratio m n) tenths.zero_point ≡ false
tenths-nonneg m n = ground arith

-- A sorted set per key, as it looks at each instant.
abbrev pub Sets : Type 0
Sets = ℕ → Str → List Entry

abbrev pub with_key : Str → (ℕ → List Entry) → Sets → Sets
with_key key f s t k = if str_eq k key then f t else s t k

pub with_key-same :
    (key : Str) (f : ℕ → List Entry) (s : Sets) (t : ℕ) → with_key key f s t key ≡ f t
with_key-same key f s t = rw (str_eq_refl key) refl

pub keep-others :
    (p q : Entry → Bool) (xs : List Entry)
    → count q xs ≡ 0
    → count p (keep (λ e. not (q e)) xs) ≡ count p xs
keep-others p q [] h = refl
keep-others p q (x ∷ xs) h = ground (arith, keep-others p q xs)

abbrev pub sets : SortedSets
sets = record {
  Store = Sets;
  entries = λ t key s. s t key;
  zremrangebyscore =
      λ now key bound s. with_key key (λ t. keep (λ e. not (leb_ℤ (pos e.0) bound)) (s t key)) s;
  zadd = λ now key score member s.
      with_key key (λ t. (score, member) ∷ keep (λ e. not (str_eq e.1 member)) (s t key)) s;
  zcard = λ now key s. length (s now key);
  expire = λ now key seconds s.
      with_key key (λ t. if ltb t (now + seconds * 1000) then s now key else []) s;
  entries_zrem = λ now key bound s.
      with_key-same key (λ t. keep (λ e. not (leb_ℤ (pos e.0) bound)) (s t key)) s now;
  count_zadd = λ now key score member s p fresh.
      ap (count p) (
        with_key-same key (λ t. (score, member) ∷ keep (λ e. not (str_eq e.1 member)) (s t key)) s
          now)
      ∙ rw (keep-others p (λ e. str_eq e.1 member) (s now key) fresh) refl;
  zcard_lem = λ now key s. refl;
  entries_expire = λ now later key seconds s _.
      with_key-same key (λ t. if ltb t (now + seconds * 1000) then s now key else []) s later;
}

-- The entry of one key with its deadline, and the lock.
abbrev pub Cell : Type 0
Cell = Option (ℕ × ℕ) × Option ℕ

unfoldable pub take_lock : ℕ → Cell → Bool × Cell
take_lock w (entry, none) = (true, (entry, some w))
take_lock w (entry, some v) = (false, (entry, some v))

unfoldable pub free_lock : ℕ → Cell → Cell
free_lock w (entry, none) = (entry, none)
free_lock w (entry, some v) = (entry, if v == w then none else some v)

abbrev pub cell_entry : Cell → Option (ℕ × ℕ)
cell_entry s = s.0

abbrev pub cell_holder : Cell → Option ℕ
cell_holder s = s.1

pub take-free :
    (w : ℕ) (s : Cell)
    → cell_holder s ≡ none
    → ((take_lock w s).0 ≡ true) × (cell_holder (take_lock w s).1 ≡ some w)
unfolding take_lock
take-free w (entry, none) e = (refl, refl)
take-free w (entry, some v) e = absurd cc

pub take-held :
    (w v : ℕ) (s : Cell)
    → cell_holder s ≡ some v
    → ((take_lock w s).0 ≡ false) × (cell_holder (take_lock w s).1 ≡ some v)
unfolding take_lock
take-held w v (entry, none) e = absurd cc
take-held w v (entry, some u) e = (refl, e)

pub take-entry : (w : ℕ) (s : Cell) → cell_entry (take_lock w s).1 ≡ cell_entry s
unfolding take_lock
take-entry w (entry, none) = refl
take-entry w (entry, some v) = refl

pub free-holder : (w : ℕ) (s : Cell) → cell_holder s ≡ some w → cell_holder (free_lock w s) ≡ none
unfolding free_lock
free-holder w (entry, none) e = refl
free-holder w (entry, some v) e = ground arith

pub free-entry : (w : ℕ) (s : Cell) → cell_entry (free_lock w s) ≡ cell_entry s
unfolding free_lock
free-entry w (entry, none) = refl
free-entry w (entry, some v) = refl

abbrev pub cells : KeyStore ℕ
cells = record {
  Store = Cell;
  entry = cell_entry;
  set = λ v d s. (some (v, d), s.1);
  holder = cell_holder;
  acquire = take_lock;
  release = free_lock;
  entry_set = λ v d s. refl;
  holder_set = λ v d s. refl;
  acquire_free = take-free;
  acquire_held = take-held;
  entry_acquire = take-entry;
  holder_release = free-holder;
  entry_release = free-entry;
}

-- The inbox of a user as what a client reads.
abbrev set_read :
    Str → Str → Option Notification → (Str → Option Notification) → Str → Option Notification
set_read k value none hashes = hashes
set_read k value (some n) hashes = put k (some (record n { status = value })) hashes

abbrev pub inboxes : Inboxes
inboxes = record {
  Store = View;
  view = λ s. s;
  hset = λ k n s. record s { hash = put k (some n) s.hash };
  hset_status = λ k value s. record s { hash = set_read k value (s.hash k) s.hash };
  zadd = λ k points member s. record s {
    score = put k (put member (some points) (s.score k)) s.score;
  };
  incr = λ k s. record s { counter = put k (some (suc (or_zero (s.counter k)))) s.counter };
  decr = λ k s. record s { counter = put k (some (or_zero (s.counter k) - 1)) s.counter };
  expire = λ k seconds s. s;
  view_hset = λ k n s. refl;
  view_hset_status = λ k value n s there. rw there refl;
  view_zadd = λ k member points s. refl;
  view_incr = λ k s. refl;
  view_decr = λ k s positive. refl;
  view_expire = λ k seconds s lives. refl;
}

-- Messages by Python's sort, the newest first.
abbrev pub older : Message → Message → Bool
older m x = ltb m.created_at x.created_at

abbrev pub newest_first : List Message → List Message
newest_first ms = sort older ms

pub newest_first-Descending : (ms : List Message) → Descending older (newest_first ms)
newest_first-Descending ms =
    sort-Descending older (λ x y h. ground (arith, h)) (λ x y z h g. ground (arith, h, g)) ms

pub no_newer : (x y : Message) → older x y ≡ false → NoNewer y x
no_newer x y h = ground (arith, h)

pub NoNewer_of : (ms : List Message) → Descending older ms → Pairwise (λ a b. NoNewer b a) ms
NoNewer_of [] h = tt
NoNewer_of (m ∷ ms) h = (All-map (λ x g. no_newer m x g) ms h.0, NoNewer_of ms h.1)

abbrev pub sorted_cursor : Cursor
sorted_cursor = record {
  newest = λ n ms. take n (newest_first ms);
  left = λ n ms. drop n (newest_first ms);
  count_split = λ n ms p. take-drop-count p n (newest_first ms) ∙ sort-count older p ms;
  length_newest = λ n ms _. length-take n (newest_first ms) ∙ ap (min n) (sort-length older ms);
  newest_first = λ n ms.
      NoNewer_of (take n (newest_first ms))
        (take-Descending older n (newest_first ms) (newest_first-Descending ms));
  left_older = λ n ms _.
      All-map (λ m h. All-map (λ x g. no_newer m x g) (drop n (newest_first ms)) h)
        (take n (newest_first ms))
        (drop-lower older n (newest_first ms) (newest_first-Descending ms));
}
