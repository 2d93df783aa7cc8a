-- ===== src/Json/Laws.antt =====
-- Reading a dict after a write, for every key.
use mncs_commons.Base.{
  String, ◌≡◌, refl, true, false, some, arith, ◌==◌, eq_iff, eq_refl, if◌then◌else◌,
}
use mncs_commons.Json.{Json, Fields, end, field, lookup, get, get_or, has, set, pop}

pub lookup-set :
    (j k : String) (v : Json) (fs : Fields)
    → lookup j (set k v fs) ≡ (if k == j then some v else lookup j fs)
unfolding lookup set
lookup-set j k v end = refl
lookup-set j k v (field i w fs) =
    ground (arith, eq_iff k j, eq_iff i k, eq_iff i j, lookup-set j k v fs)

pub get-set :
    (j k : String) (v : Json) (fs : Fields) → get j (set k v fs) ≡ (if k == j then v else get j fs)
unfolding get
get-set j k v fs = ground (arith, lookup-set j k v fs)

pub get_or-set :
    (j k : String) (d v : Json) (fs : Fields)
    → get_or j d (set k v fs) ≡ (if k == j then v else get_or j d fs)
unfolding get_or
get_or-set j k d v fs = ground (arith, lookup-set j k v fs)

pub has-set :
    (j k : String) (v : Json) (fs : Fields)
    → has j (set k v fs) ≡ (if k == j then true else has j fs)
unfolding has
has-set j k v fs = ground (arith, lookup-set j k v fs)

-- `pop` is read past by every other key.
pub lookup-pop_other :
    (j k : String) (fs : Fields) → (k == j) ≡ false → lookup j (pop k fs) ≡ lookup j fs
unfolding lookup pop
lookup-pop_other j k end h = refl
lookup-pop_other j k (field i w fs) h =
    ground (arith, eq_iff k j, eq_iff i k, eq_iff i j, lookup-pop_other j k fs h)

pub get-pop_other : (j k : String) (fs : Fields) → (k == j) ≡ false → get j (pop k fs) ≡ get j fs
unfolding get
get-pop_other j k fs h = ground (arith, lookup-pop_other j k fs h)

-- Popping a key forgets what was written there.
pub pop-set_self : (k : String) (v : Json) (fs : Fields) → pop k (set k v fs) ≡ pop k fs
unfolding set pop
pop-set_self k v end = ground (arith, eq_refl k)
pop-set_self k v (field i w fs) = ground (arith, pop-set_self k v fs)

-- Popping one key and writing another commute.
pub pop-set_other :
    (k j : String) (v : Json) (fs : Fields)
    → (j == k) ≡ false
    → pop k (set j v fs) ≡ set j v (pop k fs)
unfolding set pop
pop-set_other k j v end h = ground arith
pop-set_other k j v (field i w fs) h =
    ground (arith, eq_iff i k, eq_iff i j, eq_iff j k, pop-set_other k j v fs h)

pub ruleset dict_laws = (get-set, get_or-set, has-set)
