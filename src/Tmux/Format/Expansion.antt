-- ===== src/Tmux/Format/Expansion.antt =====
-- internal/tmux/format.go: what `ExpandFormat` does, with no fuel and no output written so far.
use shimux.Base.{
  Option-cases, length, length-append, Bytes, str, ℕ, zero, suc, ◌<◌, ◌≡◌, sym, ap, subst, ◌∙◌, ◌↔◌,
  inl, inr, none, some, [], ◌∷◌, ◌++◌, append_assoc, arith,
}
use shimux.Tmux.Format.Search.{
  index_open, index_close, Splits, index_open-Splits, index_close-Splits, IsPlain,
  index_open-append, IsClosed, index_open-IsPlain, IsPlain-index_open, index_open-before,
  IsClosed-index_close, index_close-IsClosed, index_close-append, index_close-before,
}
use shimux.Tmux.Format.{FormatContext, lookup_var, expand_loop, variable, expand_format}

-- What one round of the loop finds.
data Round (t : Bytes) : Type 0 where
  plain : index_open t ≡ none → Round t
  unclosed :
      (before rest : Bytes) → index_open t ≡ some (before, rest) → index_close rest ≡ none → Round t
  found :
      (before rest name after : Bytes)
      → index_open t ≡ some (before, rest)
      → index_close rest ≡ some (name, after)
      → Round t

round : (t : Bytes) → Round t
round t = elim (Option-cases (index_open t)) [
  | inl e ↦ plain e
  | inr ((before, rest), e) ↦ elim (Option-cases (index_close rest)) [
    | inl e' ↦ unclosed before rest e e'
    | inr ((name, after), e') ↦ found before rest name after e e'
  ]
]

length-after :
    (t before rest name after : Bytes)
    → index_open t ≡ some (before, rest)
    → index_close rest ≡ some (name, after)
    → length after < length t
length-after t before rest name after e e' = omega (
  arith,
  ap length (subst (Splits (str "#{") t) e (index_open-Splits t)),
  ap length (subst (Splits (str "}") rest) e' (index_close-Splits rest)),
  length-append before (str "#{" ++ rest),
  length-append name (str "}" ++ after),
)

module _ (f : ℕ) (ctx : FormatContext) (out t : Bytes) where
  loop_plain : index_open t ≡ none → expand_loop (suc f) ctx out t ≡ out ++ t
  unfolding expand_loop
  loop_plain e = rw (expand_loop, e)

  loop_unclosed :
      (before rest : Bytes)
      → index_open t ≡ some (before, rest)
      → index_close rest ≡ none
      → expand_loop (suc f) ctx out t ≡ out ++ t
  unfolding expand_loop
  loop_unclosed before rest e e' =
      rw (expand_loop, e, e')
        (append_assoc out before (str "#{" ++ rest)
          ∙ ap (◌++◌ out) (sym (subst (Splits (str "#{") t) e (index_open-Splits t))))

  loop_found :
      (before rest name after : Bytes)
      → index_open t ≡ some (before, rest)
      → index_close rest ≡ some (name, after)
      → expand_loop (suc f) ctx out t
        ≡ expand_loop f ctx ((out ++ before) ++ lookup_var name ctx) after
  unfolding expand_loop
  loop_found before rest name after e e' = rw (expand_loop, e, e')

-- Fuel above the length of the template is enough, and what is written so far stays in front.
expand_loop-fuel :
    (f g : ℕ) (ctx : FormatContext) (out template : Bytes)
    → length template < f
    → length template < g
    → expand_loop f ctx out template ≡ out ++ expand_loop g ctx [] template
expand_loop-fuel zero g ctx out t h k = absurd (omega arith)
expand_loop-fuel (suc f) zero ctx out t h k = absurd (omega arith)
expand_loop-fuel (suc f) (suc g) ctx out t h k = elim (round t) [
  | plain e ↦ loop_plain f ctx out t e ∙ ap (◌++◌ out) (sym (loop_plain g ctx [] t e))
  | unclosed before rest e e' ↦
      loop_unclosed f ctx out t before rest e e'
      ∙ ap (◌++◌ out) (sym (loop_unclosed g ctx [] t before rest e e'))
  | found before rest name after e e' ↦
      let shorter : length after < length t = length-after t before rest name after e e' in
      let there =
        expand_loop-fuel f g ctx ((out ++ before) ++ lookup_var name ctx) after (omega arith)
          (omega arith) in
      let here =
        expand_loop-fuel g g ctx (before ++ lookup_var name ctx) after (omega arith)
          (omega arith) in
      loop_found f ctx out t before rest name after e e'
      ∙ there
      ∙ ap (λ x. x ++ expand_loop g ctx [] after) (append_assoc out before (lookup_var name ctx))
      ∙ append_assoc out (before ++ lookup_var name ctx) (expand_loop g ctx [] after)
      ∙ ap (◌++◌ out) (sym here ∙ sym (loop_found g ctx [] t before rest name after e e'))
]

cut_variable :
    (t before rest name after : Bytes)
    → index_open t ≡ some (before, rest)
    → index_close rest ≡ some (name, after)
    → t ≡ before ++ (variable name ++ after)
cut_variable t before rest name after e e' =
    subst (Splits (str "#{") t) e (index_open-Splits t)
    ∙ ap (λ r. before ++ (str "#{" ++ r))
        (subst (Splits (str "}") rest) e' (index_close-Splits rest)
          ∙ sym (append_assoc name (str "}") after))

opens :
    (t before rest : Bytes)
    → IsPlain before
    → t ≡ before ++ (str "#{" ++ rest)
    → index_open t ≡ some (before, rest)
opens t before rest h e =
    ap index_open e ∙ index_open-append before rest (IsPlain-index_open before h)

-- The meaning of a template, written with no search: text is copied, `#{name}` is looked up, and a
-- "#{" that is never closed is copied too.
pub data Expands (ctx : FormatContext) : Bytes → Bytes → Type 0 where
  plain : {t : Bytes} → IsPlain t → Expands ctx t t
  unclosed :
      {t : Bytes} (before rest : Bytes)
      → IsPlain before
      → IsClosed rest
      → t ≡ before ++ (str "#{" ++ rest)
      → Expands ctx t t
  looked_up :
      {t out : Bytes} (before name after tail : Bytes)
      → IsPlain before
      → IsClosed name
      → t ≡ before ++ (variable name ++ after)
      → out ≡ before ++ (lookup_var name ctx ++ tail)
      → Expands ctx after tail
      → Expands ctx t out

module _ (ctx : FormatContext) where
  expand_plain : (t : Bytes) → index_open t ≡ none → expand_format t ctx ≡ t
  unfolding expand_format
  expand_plain t e = loop_plain (length t) ctx [] t e

  expand_unclosed :
      (t before rest : Bytes)
      → index_open t ≡ some (before, rest)
      → index_close rest ≡ none
      → expand_format t ctx ≡ t
  unfolding expand_format
  expand_unclosed t before rest e e' = loop_unclosed (length t) ctx [] t before rest e e'

  expand_found :
      (t before rest name after : Bytes)
      → index_open t ≡ some (before, rest)
      → index_close rest ≡ some (name, after)
      → expand_format t ctx ≡ before ++ (lookup_var name ctx ++ expand_format after ctx)
  unfolding expand_format
  expand_found t before rest name after e e' =
      loop_found (length t) ctx [] t before rest name after e e'
      ∙ expand_loop-fuel (length t) (suc (length after)) ctx (before ++ lookup_var name ctx) after
          (length-after t before rest name after e e') (omega arith)
      ∙ append_assoc before (lookup_var name ctx) (expand_format after ctx)

  Expands-expand_format : (n : ℕ) (t : Bytes) → length t < n → Expands ctx t (expand_format t ctx)
  Expands-expand_format zero t h = absurd (omega arith)
  Expands-expand_format (suc n) t h = elim (round t) [
    | plain e ↦ rw (expand_plain t e) (Expands.plain (index_open-IsPlain t e))
    | unclosed before rest e e' ↦ rw (expand_unclosed t before rest e e') (
        Expands.unclosed before rest (index_open-IsPlain before (index_open-before t e))
          (index_close-IsClosed rest e') (subst (Splits (str "#{") t) e (index_open-Splits t)))
    | found before rest name after e e' ↦
        Expands.looked_up before name after (expand_format after ctx)
          (index_open-IsPlain before (index_open-before t e)) (index_close-before rest e')
          (cut_variable t before rest name after e e') (expand_found t before rest name after e e')
          (Expands-expand_format n after
            (let shorter = length-after t before rest name after e e' in omega arith))
  ]

  -- The relation determines the output.
  expand_format-Expands : {t out : Bytes} → Expands ctx t out → expand_format t ctx ≡ out
  expand_format-Expands {t} (plain h) = expand_plain t (IsPlain-index_open t h)
  expand_format-Expands {t} (unclosed before rest h k e) =
      expand_unclosed t before rest (opens t before rest h e) (IsClosed-index_close rest k)
  expand_format-Expands {t} (looked_up before name after tail h k e e' d) =
      expand_found t before (name ++ b'}' ∷ after) name after
        (opens t before (name ++ b'}' ∷ after) h
          (e ∙ ap (λ r. before ++ (str "#{" ++ r)) (append_assoc name (str "}") after)))
        (index_close-append name after k)
      ∙ ap (λ r. before ++ (lookup_var name ctx ++ r)) (expand_format-Expands d)
      ∙ sym e'

  -- `ExpandFormat` writes exactly what the template means, for every template and context: the
  -- output is `out` if and only if the template expands to `out`.
  pub expand_format_iff : (t out : Bytes) → (expand_format t ctx ≡ out) ↔ Expands ctx t out
  expand_format_iff t out = (
    λ e. subst (Expands ctx t) e (Expands-expand_format (suc (length t)) t (omega arith)),
    expand_format-Expands,
  )
