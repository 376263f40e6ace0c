-- ===== src/Context/Commands/Collapse.antt =====
-- The path that `absolute` stores: no `.` and no `..` are left in it.
use seismic.Prelude.{◌≡◌, refl, ap, ◌∙◌, List, [], ◌∷◌, ◌++◌}
use seismic.Context.Commands.{Component, root, current, parent, normal, push, pop, collapse}

-- Names only, on the root or on nothing, listed from the last one.
abbrev pub IsPlain : List Component → Type 0
IsPlain [] = Unit {0}
IsPlain (root ∷ path) = path ≡ []
IsPlain (current ∷ path) = ⊥
IsPlain (parent ∷ path) = ⊥
IsPlain (normal name ∷ path) = IsPlain path

pop-IsPlain : (path : List Component) → IsPlain path → IsPlain (pop path)
unfolding pop
pop-IsPlain [] h = tt
pop-IsPlain (root ∷ path) h = h
pop-IsPlain (current ∷ path) h = absurd h
pop-IsPlain (parent ∷ path) h = absurd h
pop-IsPlain (normal name ∷ path) h = h

pub collapse-IsPlain : (path out : List Component) → IsPlain out → IsPlain (collapse path out)
unfolding collapse push
collapse-IsPlain [] out h = h
collapse-IsPlain (root ∷ path) out h = collapse-IsPlain path (root ∷ []) refl
collapse-IsPlain (current ∷ path) out h = collapse-IsPlain path out h
collapse-IsPlain (parent ∷ path) out h = collapse-IsPlain path (pop out) (pop-IsPlain out h)
collapse-IsPlain (normal name ∷ path) out h = collapse-IsPlain path (normal name ∷ out) h

-- The components from the first one.
abbrev pub forward : List Component → List Component
forward [] = []
forward (c ∷ path) = forward path ++ c ∷ []

collapse-append : (a b out : List Component) → collapse (a ++ b) out ≡ collapse b (collapse a out)
unfolding collapse
collapse-append [] b out = refl
collapse-append (root ∷ a) b out = collapse-append a b (push root out)
collapse-append (current ∷ a) b out = collapse-append a b out
collapse-append (parent ∷ a) b out = collapse-append a b (pop out)
collapse-append (normal name ∷ a) b out = collapse-append a b (push (normal name) out)

plain-collapse : (path : List Component) → IsPlain path → collapse (forward path) [] ≡ path
unfolding collapse push
plain-collapse [] h = refl
plain-collapse (root ∷ path) h = rw h refl
plain-collapse (current ∷ path) h = absurd h
plain-collapse (parent ∷ path) h = absurd h
plain-collapse (normal name ∷ path) h =
    collapse-append (forward path) (normal name ∷ []) []
    ∙ ap (λ p. normal name ∷ p) (plain-collapse path h)

-- What `absolute` collapses a path to is made of names alone, on the root or on nothing, and collapsing
-- it again changes nothing.
pub collapse_twice :
    (path : List Component)
    → IsPlain (collapse path []) × (collapse (forward (collapse path [])) [] ≡ collapse path [])
collapse_twice path =
    let plain = collapse-IsPlain path [] tt in (plain, plain-collapse (collapse path []) plain)
