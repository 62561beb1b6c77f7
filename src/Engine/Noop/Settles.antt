-- ===== src/Engine/Noop/Settles.antt =====
-- When the streak of repeated exchanges settles a conversation.
use onejudge.Common.{
  true≢false, ℕ, suc, ◌+◌, ◌%◌, ◌^◌, ◌≤◌, ◌<◌, ◌≡◌, refl, sym, ap, ◌∙◌, subst, ◌↔◌, ◌⊎◌, inl, inr,
  Bool, true, false, ◌&&◌, some, List, [], ◌∷◌, arith, Text, text_eq, length, leb, Bool-cases,
}
use onejudge.Platform.{Platform}
use onejudge.Transcript.{ToolEvent}
use onejudge.Engine.Noop.{
  NoopStreak, default_streak, normalize, is_quiet, repeats, observe_exchange,
}

pub record Exchange (d : Platform) : Type 0 where
  pub instruction : Text
  pub reply : Text
  pub events : List (ToolEvent d)

abbrev pub exchange_is_quiet : {d : Platform} → Exchange d → Bool
exchange_is_quiet x = is_quiet x.instruction x.reply x.events

-- The streak after the exchanges of a conversation, the last of them first.
abbrev pub streak_after : {d : Platform} → List (Exchange d) → NoopStreak
streak_after [] = default_streak
streak_after (x ∷ past) = (observe_exchange (streak_after past) x.instruction x.reply x.events).0

-- The exchange before was quiet too, and its reply had the same words.
abbrev pub repeats_last : {d : Platform} → Exchange d → List (Exchange d) → Bool
repeats_last x [] = false
repeats_last {d} x (y ∷ past) =
    exchange_is_quiet y && text_eq (normalize d y.reply) (normalize d x.reply)

wrap_lem : (n : ℕ) → n < 2 ^ 32 → n % 2 ^ 32 ≡ n
wrap_lem n h = omega arith

observe_exchange-loud :
    {d : Platform} (s : NoopStreak) (x : Exchange d)
    → exchange_is_quiet x ≡ false
    → observe_exchange s x.instruction x.reply x.events ≡ (default_streak, false)
unfolding observe_exchange
observe_exchange-loud s x q = rw q refl

observe_exchange-fresh :
    {d : Platform} (s : NoopStreak) (x : Exchange d)
    → exchange_is_quiet x ≡ true
    → repeats s.repeated (normalize d x.reply) ≡ false
    → observe_exchange s x.instruction x.reply x.events
      ≡ (record { repeated = some (normalize d x.reply); count = 1 }, false)
unfolding observe_exchange
observe_exchange-fresh s x q n = rw (q, n) refl

observe_exchange-again :
    {d : Platform} (s : NoopStreak) (x : Exchange d)
    → exchange_is_quiet x ≡ true
    → repeats s.repeated (normalize d x.reply) ≡ true
    → s.count + 1 < 2 ^ 32
    → observe_exchange s x.instruction x.reply x.events
      ≡ (record { repeated = some (normalize d x.reply); count = s.count + 1 }, leb 2 (s.count + 1))
unfolding observe_exchange
observe_exchange-again s x q n b = rw (q, n, wrap_lem (s.count + 1) b) refl

-- What the streak remembers of the last exchange.
Remembers : {d : Platform} → List (Exchange d) → NoopStreak → Type 0
Remembers [] s = s ≡ default_streak
Remembers {d} (x ∷ past) s =
    ((exchange_is_quiet x ≡ false) × (s ≡ default_streak))
    ⊎ ((exchange_is_quiet x ≡ true)
        × ((s.repeated ≡ some (normalize d x.reply))
            × ((1 ≤ s.count) × (s.count ≤ length (x ∷ past)))))

streak_after-count :
    {d : Platform} (xs : List (Exchange d))
    → Remembers xs (streak_after xs)
    → (streak_after xs).count ≤ length xs
unfolding Remembers
streak_after-count [] m = omega arith
streak_after-count (x ∷ past) (inl (q, m)) =
    subst (λ s. s.count ≤ suc (length past)) (sym m) (omega arith)
streak_after-count (x ∷ past) (inr (q, (r, (l, c)))) = c

streak_after-Remembers :
    {d : Platform} (xs : List (Exchange d)) → length xs < 2 ^ 32 → Remembers xs (streak_after xs)
unfolding Remembers
streak_after-Remembers [] b = refl
streak_after-Remembers {d} (x ∷ past) b =
    let k = streak_after-count past (streak_after-Remembers past (omega arith)) in
    elim (Bool-cases (exchange_is_quiet x)) [
      | inl q ↦ elim (Bool-cases (repeats (streak_after past).repeated (normalize d x.reply))) [
        | inl n ↦
            subst (λ z. Remembers (x ∷ past) z.0)
              (sym (observe_exchange-again (streak_after past) x q n (omega arith)))
              (inr (q, (refl, (omega arith, omega arith))))
        | inr n ↦
            subst (λ z. Remembers (x ∷ past) z.0)
              (sym (observe_exchange-fresh (streak_after past) x q n))
              (inr (q, (refl, (omega arith, omega arith))))
      ]
      | inr q ↦ inl (q, ap (λ z. z.0) (observe_exchange-loud (streak_after past) x q))
    ]

-- The streak that remembers the last exchange finds the repetition.
repeats-Remembers :
    {d : Platform} (x : Exchange d) (past : List (Exchange d)) (s : NoopStreak)
    → Remembers past s
    → repeats s.repeated (normalize d x.reply) ≡ repeats_last x past
unfolding Remembers repeats
repeats-Remembers {d} x [] s m = ap (λ s. repeats s.repeated (normalize d x.reply)) m
repeats-Remembers {d} x (y ∷ past) s (inl (q, m)) =
    ap (λ s. repeats s.repeated (normalize d x.reply)) m ∙ rw q refl
repeats-Remembers {d} x (y ∷ past) s (inr (q, (r, _))) = rw (q, r) refl

repeats-count :
    {d : Platform} (past : List (Exchange d)) (s : NoopStreak) (text : Text)
    → Remembers past s
    → repeats s.repeated text ≡ true
    → 1 ≤ s.count
unfolding Remembers repeats
repeats-count [] s text m r = absurd (true≢false (sym r ∙ ap (λ s. repeats s.repeated text) m))
repeats-count (y ∷ past) s text (inl (q, m)) r =
    absurd (true≢false (sym r ∙ ap (λ s. repeats s.repeated text) m))
repeats-count (y ∷ past) s text (inr (q, (_, (l, _)))) r = l

-- An exchange settles the conversation exactly when it is quiet and repeats the one before, in a
-- conversation of fewer than 2 ^ 32 exchanges.
pub observe_exchange_iff :
    {d : Platform} (x : Exchange d) (past : List (Exchange d))
    → length (x ∷ past) < 2 ^ 32
    → ((observe_exchange (streak_after past) x.instruction x.reply x.events).1 ≡ true)
      ↔ ((exchange_is_quiet x && repeats_last x past) ≡ true)
observe_exchange_iff {d} x past h =
    let m = streak_after-Remembers past (omega arith) in
    let k = streak_after-count past m in
    let same = repeats-Remembers x past (streak_after past) m in
    elim (Bool-cases (exchange_is_quiet x)) [
      | inl q ↦ elim (Bool-cases (repeats (streak_after past).repeated (normalize d x.reply))) [
        | inl n ↦
            let one = repeats-count past (streak_after past) _ m n in
            (
              λ _. rw (q, sym same) n,
              λ _.
                  rw (observe_exchange-again (streak_after past) x q n (omega arith))
                    (ground arith),
            )
        | inr n ↦ (
          λ t. absurd (
              true≢false
                (sym t ∙ ap (λ z. z.1) (observe_exchange-fresh (streak_after past) x q n))),
          λ t. absurd (true≢false (sym t ∙ rw (q, sym same) n)),
        )
      ]
      | inr q ↦ (
        λ t.
            absurd
              (true≢false (sym t ∙ ap (λ z. z.1) (observe_exchange-loud (streak_after past) x q))),
        λ t. absurd (true≢false (sym t ∙ rw q refl)),
      )
    ]
