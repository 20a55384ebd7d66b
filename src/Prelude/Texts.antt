-- ===== src/Prelude/Texts.antt =====
-- Texts joined and split into lines, as JavaScript's `+` and `join` have it.
use Prim.Native.String.{String, ◌++◌}
use Prim.Native.String.append
use Prim.Native.String as Text
use mathlib.Core.Path.{◌≡◌, sym, ap, ◌∙◌}
use mathlib.Core.List.{List, [], ◌∷◌}

pub append_assoc : (s t u : String) → (s ++ t) ++ u ≡ s ++ (t ++ u)
append_assoc Text.[] t u = ap (λ x. x ++ u) (append.nil t) ∙ sym (append.nil (t ++ u))
append_assoc (Text.◌∷◌ c s) t u =
    ap (λ x. x ++ u) (append.cons c s t)
    ∙ append.cons c (s ++ t) u
    ∙ ap (λ x. Text.◌∷◌ c x) (append_assoc s t u)
    ∙ sym (append.cons c s (t ++ u))

pub append_nothing : (s : String) → s ++ "" ≡ s
append_nothing Text.[] = append.nil ""
append_nothing (Text.◌∷◌ c s) = append.cons c s "" ∙ ap (λ x. Text.◌∷◌ c x) (append_nothing s)

pub nothing_append : (s : String) → "" ++ s ≡ s
nothing_append s = append.nil s

-- `pieces.join(separator)`
abbrev pub join : String → List String → String
join separator [] = ""
join separator (piece ∷ []) = piece
join separator (piece ∷ next ∷ rest) = piece ++ (separator ++ join separator (next ∷ rest))
