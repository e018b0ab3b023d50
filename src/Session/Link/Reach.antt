-- ===== src/Session/Link/Reach.antt =====
-- helper/session/main.go: runs of the operations of the session.
use electric_eel.Base.{
  ◌≡◌, refl, sym, ap, ◌∙◌, Bool, true, false, List, [], ◌∷◌, ◌++◌, All, All-append, if◌then◌else◌,
}
use electric_eel.Session.State.{Session}
use electric_eel.Session.Link.{Settings}
use electric_eel.Session.Link.Invariant.{Op, apply, apply_all}

-- some run of operations, each of which is allowed, leads from one session to the other
abbrev pub Reaches : (Op → Type 0) → Settings → Session → Session → Type 0
Reaches P cfg s s' = (ops : List Op) × All P ops × (s' ≡ apply_all cfg ops s)

-- every operation
abbrev pub AnyOp : Op → Type 0
AnyOp op = Unit

module _ (P : Op → Type 0) (cfg : Settings) where
  pub apply_all-append :
      (xs ys : List Op) (s : Session)
      → apply_all cfg (xs ++ ys) s ≡ apply_all cfg ys (apply_all cfg xs s)
  unfolding apply_all
  apply_all-append [] ys s = refl
  apply_all-append (x ∷ xs) ys s = apply_all-append xs ys (apply cfg x s)

  pub Reaches-refl : (s : Session) → Reaches P cfg s s
  unfolding apply_all
  Reaches-refl s = ([], tt, refl)

  pub Reaches-trans : (s t u : Session) → Reaches P cfg s t → Reaches P cfg t u → Reaches P cfg s u
  Reaches-trans s t u (xs, hx, e) (ys, hy, f) = (
    xs ++ ys,
    All-append P xs ys hx hy,
    f ∙ ap (apply_all cfg ys) e ∙ sym (apply_all-append xs ys s),
  )

  pub Reaches-op : (op : Op) → P op → (s : Session) → Reaches P cfg s (apply cfg op s)
  unfolding apply_all
  Reaches-op op h s = (op ∷ [], (h, tt), refl)

  pub Reaches-apply_all :
      (ops : List Op) → All P ops → (s : Session) → Reaches P cfg s (apply_all cfg ops s)
  Reaches-apply_all ops h s = (ops, h, refl)

  pub if-Reaches :
      {A : Type 0} (view : A → Session) (b : Bool) (s : Session) (x y : A)
      → Reaches P cfg s (view x)
      → Reaches P cfg s (view y)
      → Reaches P cfg s (view (if b then x else y))
  if-Reaches view true s x y hx hy = hx
  if-Reaches view false s x y hx hy = hy
