-- ===== src/Dashboard/Tasks.antt =====
-- The requests that a page of the dashboard has in flight: the list that `reload` asks for, and those of
-- its handlers, each of which sets `busy` to a key. Saques and Comissoes are such pages.
use indica_ai.Prelude.{
  ℕ, suc, ◌+◌, arith, ◌≡◌, ◌≢◌, refl, Bool, true, false, Option, none, some, List, [], ◌∷◌, ◌++◌,
  String,
}
use mathlib.Core.List.{Memᴰ}

pub data Task (A : Type 0) : Type 0 where
  load : Task A
  act : A → Task A

module _ {A : Type 0} where
  mem-append_left : {x : Task A} (xs ys : List (Task A)) → Memᴰ x xs → Memᴰ x (xs ++ ys)
  mem-append_left [] ys m = elim m [ ]
  mem-append_left (y ∷ xs) ys (Memᴰ.head e) = Memᴰ.head e
  mem-append_left (y ∷ xs) ys (Memᴰ.tail m) = Memᴰ.tail (mem-append_left xs ys m)

  pub mem-append_last : (xs : List (Task A)) (x : Task A) → Memᴰ x (xs ++ x ∷ [])
  mem-append_last [] x = Memᴰ.head refl
  mem-append_last (y ∷ xs) x = Memᴰ.tail (mem-append_last xs x)

  -- An answer takes no other request away.
  mem_of_other :
      (x y : Task A) (xs ys : List (Task A)) → x ≢ y → Memᴰ x (xs ++ y ∷ ys) → Memᴰ x (xs ++ ys)
  mem_of_other x y [] ys n (Memᴰ.head e) = absurd (n e)
  mem_of_other x y [] ys n (Memᴰ.tail m) = m
  mem_of_other x y (z ∷ xs) ys n (Memᴰ.head e) = Memᴰ.head e
  mem_of_other x y (z ∷ xs) ys n (Memᴰ.tail m) = Memᴰ.tail (mem_of_other x y xs ys n m)

  -- What shows as loading is loading.
  abbrev pub Listing : Bool → List (Task A) → Type 0
  Listing false tasks = Unit
  Listing true tasks = Memᴰ load tasks

  pub Listing-append : (b : Bool) (ts us : List (Task A)) → Listing b ts → Listing b (ts ++ us)
  Listing-append false ts us h = tt
  Listing-append true ts us m = mem-append_left ts us m

  pub Listing-act :
      (b : Bool) (a : A) (xs ys : List (Task A))
      → Listing b (xs ++ act a ∷ ys)
      → Listing b (xs ++ ys)
  Listing-act false a xs ys h = tt
  Listing-act true a xs ys m = mem_of_other load (act a) xs ys (λ p. cc) m

pub Listing-nil : (A : Type 0) (b : Bool) → Listing {A = A} b [] → b ≡ false
Listing-nil A false h = refl
Listing-nil A true m = elim m [ ]

module _ {A : Type 0} (key_of : A → String) where
  -- What is disabled has a request of its own in flight.
  abbrev pub InFlight : Option String → List (Task A) → Type 0
  InFlight none tasks = Unit
  InFlight (some k) tasks = (a : A) × Memᴰ (act a) tasks × (key_of a ≡ k)

  pub InFlight-append :
      (o : Option String) (ts us : List (Task A)) → InFlight o ts → InFlight o (ts ++ us)
  InFlight-append none ts us h = tt
  InFlight-append (some k) ts us (a, m, e) = (a, mem-append_left ts us m, e)

  pub InFlight-list :
      (o : Option String) (xs ys : List (Task A))
      → InFlight o (xs ++ load ∷ ys)
      → InFlight o (xs ++ ys)
  InFlight-list none xs ys h = tt
  InFlight-list (some k) xs ys (a, m, e) = (a, mem_of_other (act a) load xs ys (λ p. cc) m, e)

  pub InFlight-nil : (o : Option String) → InFlight o [] → o ≡ none
  InFlight-nil none h = refl
  InFlight-nil (some k) (a, m, e) = elim m [ ]

-- How many answers may come at most: one for a list, and two for a request whose success asks for one.
module _ {A : Type 0} where
  unfoldable pub weight : List (Task A) → ℕ
  weight [] = 0
  weight (load ∷ ts) = suc (weight ts)
  weight (act a ∷ ts) = suc (suc (weight ts))

  pub weight-append : (xs ys : List (Task A)) → weight (xs ++ ys) ≡ weight xs + weight ys
  unfolding weight
  weight-append [] ys = omega arith
  weight-append (load ∷ xs) ys = let e = weight-append xs ys in omega (arith, e)
  weight-append (act a ∷ xs) ys = let e = weight-append xs ys in omega (arith, e)

  pub nil_of_weight : (ts : List (Task A)) → weight ts ≡ 0 → ts ≡ []
  unfolding weight
  nil_of_weight [] h = refl
  nil_of_weight (load ∷ ts) h = absurd (omega (arith, h))
  nil_of_weight (act a ∷ ts) h = absurd (omega (arith, h))
