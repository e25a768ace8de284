-- ===== src/Diagnosis/Fence.antt =====
-- agent/diagnosis/prompting.py: `_strip_code_fence`.
use Prim.Native.Char.{code}
use Prim.Native.String.{[], ◌∷◌, ◌++◌, count}
use text.Mathlib.Text.{starts_with}
use text.Mathlib.TextPositions.{starts_with-append}
use text.Mathlib.TextLemmas.{cons-append, nil-append, append_assoc}
use downtime_aware_recovery.Common.{
  ◌≡◌, subst, Bool-cases, inl, inr, refl, sym, true, false, String, some, ◌-◌, if◌then◌else◌,
  or_default, is_some, arith, nat_eq,
}
use downtime_aware_recovery.Text.{
  strip, rstrip, lstrip, after_line, drop, take, ends_with, is_blank, is_space,
}
use downtime_aware_recovery.Text.Strip.{
  strip-append_blank, rstrip-append, strip-blank_append, take-end, ends_with-append,
}

-- The `if` on the closing fence.
unfoldable pub without_end : String → String
without_end text = let t = rstrip text in if ends_with t "```" then take (count t - 3) t else text

-- Behind the opening fence: the rest of the lines, or all but the fence itself.
unfoldable pub without_start : String → String
without_start text = or_default (drop 3 text) (after_line text)

unfoldable pub strip_code_fence : String → String
strip_code_fence raw =
    let text = strip raw in
    let inner = without_end (without_start text) in
    strip (if starts_with text "```" then inner else text)

-- A body between fences, with the name of a language after the first one.
unfoldable pub fenced : String → String → String
fenced language body = "```" ++ (language ++ ("\n" ++ (body ++ "\n```")))

newline_is_blank : is_blank "\n" ≡ true
unfolding is_space
newline_is_blank = refl

after_line-append :
    (s t : String) → is_some (after_line s) ≡ false → after_line (s ++ ("\n" ++ t)) ≡ some t
unfolding after_line
after_line-append [] t h = rw (nil-append ("\n" ++ t), cons-append "\n" "" t, nil-append t) refl
after_line-append (c ∷ s) t h =
    rw (cons-append c s ("\n" ++ t)) (elim (Bool-cases (nat_eq (code c) 10)) [
      | inl e ↦ ground arith
      | inr e ↦
          rw
            (
              e,
              after_line-append s t
                  (subst (λ b. is_some (if b then some s else after_line s) ≡ false) e h),
            )
            refl
    ])

closing-rstrip : rstrip "\n```" ≡ "\n```"
unfolding rstrip is_space
closing-rstrip = refl

rstrip-closed : (s : String) → rstrip (s ++ "\n```") ≡ s ++ "\n```"
rstrip-closed s = rw (rstrip-append s "\n```" (rw closing-rstrip refl), closing-rstrip) refl

-- A fence that closes the text is taken off.
without_end-closed : (s : String) → without_end (s ++ "\n```") ≡ s ++ "\n"
unfolding without_end
without_end-closed s =
    let t = s ++ "\n" in
    let joined = sym (append_assoc s "\n" "```") in
    rw (rstrip-closed s, joined, ends_with-append t "```") (take-end t "```")

lstrip-ticks : (s : String) → lstrip ("```" ++ s) ≡ "```" ++ s
unfolding lstrip is_space
lstrip-ticks s = rw (cons-append "`" "``" s) refl

strip-fenced : (language body : String) → strip (fenced language body) ≡ fenced language body
unfolding strip fenced
strip-fenced language body =
    let opening = "```" ++ (language ++ ("\n" ++ body)) in
    let split : opening ++ "\n```" ≡ fenced language body =
      rw
        (
          append_assoc "```" (language ++ ("\n" ++ body)) "\n```",
          append_assoc language ("\n" ++ body) "\n```",
          append_assoc "\n" body "\n```",
        )
        refl in
    rw (lstrip-ticks (language ++ ("\n" ++ (body ++ "\n```"))))
      (subst (λ t. rstrip t ≡ t) split (rstrip-closed opening))

after_line-ticks : (s : String) → after_line ("```" ++ s) ≡ after_line s
unfolding after_line
after_line-ticks s =
    rw (cons-append "`" "``" s, cons-append "`" "`" s, cons-append "`" "" s, nil-append s) refl

-- A body without white space at its ends comes back from between code fences, whatever white space
-- stands around the fences, and whatever language of one line is named.
pub strip_code_fence-fenced :
    (before language body after : String)
    → is_blank before ≡ true
    → is_some (after_line language) ≡ false
    → strip body ≡ body
    → is_blank after ≡ true
    → strip_code_fence (before ++ (fenced language body ++ after)) ≡ body
unfolding strip_code_fence without_start
strip_code_fence-fenced before language body after b l trimmed a =
    let opened = starts_with-append "```" (language ++ ("\n" ++ (body ++ "\n```"))) in
    rw
      (
        strip-blank_append before (fenced language body ++ after) b,
        strip-append_blank (fenced language body) after a,
        strip-fenced language body,
      )
      (unfold fenced in
        rw
          (
            opened,
            after_line-ticks (language ++ ("\n" ++ (body ++ "\n```"))),
            after_line-append language (body ++ "\n```") l,
            without_end-closed body,
            strip-append_blank body "\n" newline_is_blank,
          )
          trimmed)
