-- ===== src/Common/Sweep.antt =====
-- The loop `for (const v of Object.values(m)) if (test(v)) m[v.id] = change(v);`.
use mathlib.Core.Path.{◌≡◌, refl}
use mathlib.Core.Bool.{Bool}
use mathlib.Core.Option.{Option, none, some}
use mathlib.Core.List.{List, [], ◌∷◌}
use native.Mathlib.Omega.{arith}
use steerloop.Common.Tests.{if_either, if◌then◌else◌}
use steerloop.Common.Strings.{Text}
use steerloop.Common.Maps.{
  Assoc, lookup, insert, values, lookup-insert, Distinct, insert-Distinct, Every, insert-Every,
  Keyed,
}

module _ {ℓ} {V : Type ℓ} (id : V → Text) (test : V → Bool) (change : V → V) where
  unfoldable pub put_each : List V → Assoc V → Assoc V
  put_each [] m = m
  put_each (v ∷ vs) m = put_each vs (if test v then insert (id v) (change v) m else m)

  unfoldable pub sweep : Assoc V → Assoc V
  sweep m = put_each (values m) m

  -- What a sweep makes of one entry.
  abbrev pub swept : V → V
  swept v = if test v then change v else v

  abbrev pub swept? : Option V → Option V
  swept? none = none
  swept? (some v) = some (swept v)

  abbrev over : Option V → Option V → Option V
  over none old = old
  over (some v) old = if test v then some (change v) else old

  lookup-put_each :
      (k : Text) (n m : Assoc V)
      → Keyed id n
      → Distinct n
      → lookup k (put_each (values n) m) ≡ over (lookup k n) (lookup k m)
  unfolding put_each values lookup
  lookup-put_each k [] m h d = refl
  lookup-put_each k ((j, v) ∷ n) m h d = ground (
    arith,
    h.0,
    d.0,
    lookup-put_each k n (if test v then insert (id v) (change v) m else m) h.1 d.1,
    lookup-insert (id v) k (change v) m,
  )

  -- A sweep changes exactly the entries that pass the test.
  pub lookup-sweep :
      (k : Text) (m : Assoc V) → Keyed id m → Distinct m → lookup k (sweep m) ≡ swept? (lookup k m)
  unfolding sweep
  lookup-sweep k m h d = ground (arith, lookup-put_each k m m h d)

  put_each-Distinct : (vs : List V) (m : Assoc V) → Distinct m → Distinct (put_each vs m)
  unfolding put_each
  put_each-Distinct [] m d = d
  put_each-Distinct (v ∷ vs) m d =
      put_each-Distinct vs (if test v then insert (id v) (change v) m else m)
        (if_either Distinct (test v) (insert-Distinct (id v) (change v) m d) d)

  pub sweep-Distinct : (m : Assoc V) → Distinct m → Distinct (sweep m)
  unfolding sweep
  sweep-Distinct m d = put_each-Distinct (values m) m d

  module _ {κ} (P : Text → V → Type κ)
      (keep : (k : Text) (v : V) → P k v → id v ≡ k → P (id v) (change v)) where
    put_each-Every :
        (n m : Assoc V) → Keyed id n → Every P n → Every P m → Every P (put_each (values n) m)
    unfolding put_each values
    put_each-Every [] m k h g = g
    put_each-Every ((j, v) ∷ n) m k h g =
        put_each-Every n (if test v then insert (id v) (change v) m else m) k.1 h.1
          (if_either (Every P) (test v) (insert-Every P (id v) (change v) m (keep j v h.0 k.0) g) g)

    pub sweep-Every : (m : Assoc V) → Keyed id m → Every P m → Every P (sweep m)
    unfolding sweep
    sweep-Every m k h = put_each-Every m m k h h
