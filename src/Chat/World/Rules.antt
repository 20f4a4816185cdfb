-- ===== src/Chat/World/Rules.antt =====
-- Rules for actions: an invariant of the store, and what an error leaves of it.
use inline_chat.Prelude.{◌≡◌, refl, sym, ◌∙◌, ap, subst, Bool, true, false, if◌then◌else◌}
use inline_chat.Errors.{Error, Result, ok, err, is_err}
use inline_chat.Chat.World.{Store, World, Action, map_error, ◌>>=◌}

module _ {C M O : Type 0} where
  -- A property of a bind from the two ways in which its first action ends.
  pub bind_elim {ℓ} :
      {A B : Type 0} (P : Result B × World C M O → Type ℓ) (m : Action C M O A)
      (f : A → Action C M O B) (w : World C M O)
      → ((a : A) (w' : World C M O) → m w ≡ (ok a, w') → P (f a w'))
      → ((e : Error) (w' : World C M O) → m w ≡ (err e, w') → P (err e, w'))
      → P ((m >>= f) w)
  bind_elim {A} P m f w hok herr = go (m w).0 (m w).1 refl
    where
      go :
          (r : Result A) (w' : World C M O)
          → m w ≡ (r, w')
          → P (elim r [ ok a ↦ f a w' | err e ↦ (err e, w') ])
      go (ok a) w' e = hok a w' e
      go (err x) w' e = herr x w' e

  module _ (I : Store C M O → Type 0) where
    -- However it ends, the action keeps the invariant.
    abbrev pub Keeps : {A : Type 0} → Action C M O A → Type 0
    Keeps m = (w : World C M O) → I w.store → I (m w).1.store

    pub Keeps-bind :
        {A B : Type 0} (m : Action C M O A) (f : A → Action C M O B)
        → Keeps m
        → ((a : A) → Keeps (f a))
        → Keeps (m >>= f)
    Keeps-bind m f km kf w i =
        bind_elim (λ p. I p.1.store) m f w (λ a w' e. kf a w' (subst (λ p. I p.1.store) e (km w i)))
          (λ x w' e. subst (λ p. I p.1.store) e (km w i))

    pub Keeps-map_error :
        {A : Type 0} (g : Error → Error) (m : Action C M O A) → Keeps m → Keeps (map_error g m)
    Keeps-map_error {A} g m km w i = go (m w).0 (m w).1 (km w i)
      where
        go :
            (r : Result A) (w' : World C M O)
            → I w'.store
            → I
                (let out : Result A × World C M O = elim r [
                  | ok a ↦ (ok a, w')
                  | err e ↦ (err (g e), w')
                ] in
                  out).1.store
        go (ok a) w' j = j
        go (err x) w' j = j

    pub Keeps-if :
        {A : Type 0} (b : Bool) (m n : Action C M O A)
        → Keeps m
        → Keeps n
        → Keeps (if b then m else n)
    Keeps-if true m n km kn = km
    Keeps-if false m n km kn = kn

  -- An action that ends in an error has changed nothing in the store.
  abbrev pub Atomic : {A : Type 0} → Action C M O A → Type 0
  Atomic m = (w : World C M O) → is_err (m w).0 ≡ true → (m w).1.store ≡ w.store

  -- An action that never changes the store.
  abbrev pub Reads : {A : Type 0} → Action C M O A → Type 0
  Reads m = (w : World C M O) → (m w).1.store ≡ w.store

  abbrev pub Succeeds : {A : Type 0} → Action C M O A → Type 0
  Succeeds m = (w : World C M O) → is_err (m w).0 ≡ false

  -- Nothing is written before the part that is atomic.
  pub Atomic-after :
      {A B : Type 0} (m : Action C M O A) (f : A → Action C M O B)
      → Reads m
      → ((a : A) → Atomic (f a))
      → Atomic (m >>= f)
  Atomic-after m f rm af w h =
      bind_elim (λ p. is_err p.0 ≡ true → p.1.store ≡ w.store) m f w
        (λ a w' e h'. af a w' h' ∙ (ap (λ p. p.1.store) (sym e) ∙ rm w))
        (λ x w' e h'. ap (λ p. p.1.store) (sym e) ∙ rm w) h

  -- Nothing fails after the part that is atomic.
  pub Atomic-before :
      {A B : Type 0} (m : Action C M O A) (f : A → Action C M O B)
      → Atomic m
      → ((a : A) → Succeeds (f a))
      → Atomic (m >>= f)
  Atomic-before m f am sf w h =
      bind_elim (λ p. is_err p.0 ≡ true → p.1.store ≡ w.store) m f w (λ a w' e h'. cc (sf a w'))
        (λ x w' e h'. ap (λ p. p.1.store) (sym e) ∙ am w (ap (λ p. is_err p.0) e)) h

  pub Atomic-if :
      {A : Type 0} (b : Bool) (m n : Action C M O A)
      → Atomic m
      → Atomic n
      → Atomic (if b then m else n)
  Atomic-if true m n am an = am
  Atomic-if false m n am an = an

  pub Atomic-map_error :
      {A : Type 0} (g : Error → Error) (m : Action C M O A) → Atomic m → Atomic (map_error g m)
  Atomic-map_error {A} g m am w h = go (m w).0 (m w).1 (am w) h
    where
      go :
          (r : Result A) (w' : World C M O)
          → (is_err r ≡ true → w'.store ≡ w.store)
          → is_err
              (let out : Result A × World C M O = elim r [
                | ok a ↦ (ok a, w')
                | err e ↦ (err (g e), w')
              ] in
                out).0
            ≡ true
          → (let out : Result A × World C M O = elim r [
            | ok a ↦ (ok a, w')
            | err e ↦ (err (g e), w')
          ] in
              out).1.store
            ≡ w.store
      go (ok a) w' k h' = cc
      go (err x) w' k h' = k refl
