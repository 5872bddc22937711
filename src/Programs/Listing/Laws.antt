-- ===== src/Programs/Listing/Laws.antt =====
-- What the list of programs says of a program that the new-program page published:
-- web/apps/dashboard/app/(app)/programas/page.tsx and programas/novo/page.tsx.
use indica_ai.Prelude.{ℕ, zero, suc, ◌*◌, ◌≡◌, refl, Option, none, some, String}
use indica_ai.Prelude.Int.{ℤ, pos, negsuc}
use indica_ai.Js.Json.{Json, Members, end, member}
use indica_ai.Programs.Form.{
  Trigger, Method, Reward, Rules, State, build_reward, build_backend_rules,
}
use indica_ai.Programs.Listing.{Summary, summarize_rule}

abbrev trigger_text : Trigger → String
trigger_text Trigger.sale_confirmed = "sale.confirmed"
trigger_text Trigger.payment_confirmed = "payment.confirmed"
trigger_text Trigger.manual = "manual"

abbrev method_text : Method → String
method_text Method.pix = "pix"
method_text Method.credit = "credit"
method_text Method.manual = "manual"

abbrev typed : String → Members → Json
typed kind ms = Json.object (member "type" (Json.text kind) ms)

-- The object that `buildReward` makes, as JSON.
unfoldable pub reward_json : Reward → Json
reward_json (Reward.flexible_split n) =
    typed "flexible_split" (member "max_pct" (Json.number n) end)
reward_json (Reward.recurring_commission n) =
    typed "recurring_commission" (member "pct" (Json.number n) end)
reward_json (Reward.goal_based n) = typed "goal_based" (
    member "target" (Json.number n) (
      member "counting"
        (Json.object (
          member "scope" (Json.text "per_partner")
            (member "status_required" (Json.text "closed") end)))
        end))
reward_json (Reward.commission_fixed n) =
    typed "commission_fixed" (member "amount_brl" (Json.number n) end)
reward_json (Reward.commission_pct n) = typed "commission_pct" (member "pct" (Json.number n) end)

abbrev whole : ℕ → Json
whole n = Json.number (pos (n * 1000))

-- The object that `buildBackendRules` returns, as JSON.
unfoldable pub rules_json : Rules → Members
unfolding reward_json
rules_json r = member "schema_version" (whole 1) (
    member "trigger" (Json.text (trigger_text r.trigger)) (
      member "attribution_window_days" (whole r.attribution_window_days) (
        member "reward" (reward_json r.reward) (
          member "payout"
            (Json.object (
              member "method" (Json.text (method_text r.method)) (
                member "schedule" (Json.text "on_approval")
                  (member "min_amount_brl" (Json.number r.min_amount_brl) end))))
            (member "limits" (Json.object end) end)))))

-- A number that is printed if it is not 0.
abbrev pub printed : ℤ → Option Json
printed (pos zero) = none
printed (pos (suc n)) = some (Json.number (pos (suc n)))
printed (negsuc n) = some (Json.number (negsuc n))

-- The sentence for each reward; that of a recurring commission is the bare word of its type.
abbrev pub expected : Reward → Summary
expected (Reward.flexible_split n) = Summary.flexible_split (printed n)
expected (Reward.recurring_commission n) = Summary.other (Json.text "recurring_commission")
expected (Reward.goal_based n) = Summary.by_goal
expected (Reward.commission_fixed n) = Summary.fixed_commission (printed n)
expected (Reward.commission_pct n) = Summary.percentage_commission (printed n)

reward_summary :
    (r : Rules) (w : Reward) → summarize_rule (rules_json (record r { reward = w })) ≡ expected w
unfolding summarize_rule rules_json
reward_summary r (Reward.flexible_split (pos zero)) = refl
reward_summary r (Reward.flexible_split (pos (suc n))) = refl
reward_summary r (Reward.flexible_split (negsuc n)) = refl
reward_summary r (Reward.recurring_commission n) = refl
reward_summary r (Reward.goal_based n) = refl
reward_summary r (Reward.commission_fixed (pos zero)) = refl
reward_summary r (Reward.commission_fixed (pos (suc n))) = refl
reward_summary r (Reward.commission_fixed (negsuc n)) = refl
reward_summary r (Reward.commission_pct (pos zero)) = refl
reward_summary r (Reward.commission_pct (pos (suc n))) = refl
reward_summary r (Reward.commission_pct (negsuc n)) = refl

-- The list of programs reads from the rules that the new-program page sends the reward that it
-- built: the ceiling of the split, the fixed amount or the percentage, each unless it is 0, that it
-- is a goal, and for a recurring commission the bare word of its type.
pub summarize_rule-build_backend_rules :
    (s : State) → summarize_rule (rules_json (build_backend_rules s)) ≡ expected (build_reward s)
unfolding build_backend_rules
summarize_rule-build_backend_rules s = reward_summary (build_backend_rules s) (build_reward s)
