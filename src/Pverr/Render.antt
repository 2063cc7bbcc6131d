-- ===== src/Pverr/Render.antt =====
-- The text of an error: proxmox/pverr/error.go.
use mathlib.Core.List.{Permᴰ}
use mathlib.Core.Path.{fun_ext}
use proxmox_go_sdk.Base.{suc, length, ◌≡◌, refl, ◌∙◌, ap, List, [], ◌∷◌, ◌++◌, map, arith}
use proxmox_go_sdk.Base.Eq.{text_Eq}
use proxmox_go_sdk.Base.Map.{Map, IsMap}
use proxmox_go_sdk.Base.MapOrder.{SameLookups, lookup-perm}
use proxmox_go_sdk.Base.Text.{Text, text, join, trim_space}
use proxmox_go_sdk.Base.TextOrder.{sort_strings, sort_strings-perm}
use proxmox_go_sdk.Pverr.{Error, render, render_params, render_param, or_empty}

abbrev param_names : Map Text Text → List Text
param_names m = map (λ (q : Text × Text). q.0) m

map-perm : (m n : Map Text Text) → Permᴰ m n → Permᴰ (param_names m) (param_names n)
map-perm _ _ Permᴰ.nil = Permᴰ.nil
map-perm _ _ (Permᴰ.cons {l₁ = m} {l₂ = n} e p) =
    Permᴰ.cons (ap (λ (q : Text × Text). q.0) e) (map-perm m n p)
map-perm _ _ (Permᴰ.swap e f) =
    Permᴰ.swap (ap (λ (q : Text × Text). q.0) e) (ap (λ (q : Text × Text). q.0) f)
map-perm _ _ (Permᴰ.trans {l₁ = l} {l₂ = m} {l₃ = n} p q) =
    Permᴰ.trans (map-perm l m p) (map-perm m n q)

render_param-SameLookups : (m n : Map Text Text) → SameLookups m n → render_param m ≡ render_param n
unfolding render_param
render_param-SameLookups m n h =
    fun_ext λ name. ap (λ o. name ++ (text ": " ++ trim_space (or_empty o))) (h name)

-- the brackets of a non-empty map
bracketed : Map Text Text → Text
bracketed m =
    text " ["
    ++ (join (text "; ") (map (render_param m) (sort_strings (param_names m))) ++ text "]")

bracketed-perm : (m n : Map Text Text) → Permᴰ m n → IsMap m → bracketed m ≡ bracketed n
unfolding bracketed
bracketed-perm m n p h =
    cc
      (render_param-SameLookups m n (lookup-perm m n p h).0, sort_strings-perm _ _ (map-perm m n p))

length-perm : (m n : Map Text Text) → Permᴰ m n → length m ≡ length n
length-perm _ _ Permᴰ.nil = refl
length-perm _ _ (Permᴰ.cons {l₁ = m} {l₂ = n} e p) = ap suc (length-perm m n p)
length-perm _ _ (Permᴰ.swap e f) = refl
length-perm _ _ (Permᴰ.trans {l₁ = l} {l₂ = m} {l₃ = n} p q) = length-perm l m p ∙ length-perm m n q

render_params-perm : (m n : Map Text Text) → Permᴰ m n → IsMap m → render_params m ≡ render_params n
unfolding render_params bracketed
render_params-perm [] [] p h = refl
render_params-perm [] (b ∷ n) p h = absurd (omega (arith, length-perm [] (b ∷ n) p))
render_params-perm (a ∷ m) [] p h = absurd (omega (arith, length-perm (a ∷ m) [] p))
render_params-perm (a ∷ m) (b ∷ n) p h = bracketed-perm (a ∷ m) (b ∷ n) p h

-- The text of an error does not depend on the order in which Go walks the map of its parameters.
pub render-perm :
    (e : Error) (n : Map Text Text)
    → IsMap e.params
    → Permᴰ e.params n
    → render e ≡ render (record e { params = n })
unfolding render
render-perm e n h p = rw (render_params-perm e.params n p h) refl
