-- ===== src/Auth/Examples.antt =====
-- A lookup behind one proxy, and a Redis whose store holds a count and an expiry for each key.
use lumen_ai_support_agent.Auth.Window.{allowed-window, text_eq_refl, text_eq_sound}
use lumen_ai_support_agent.Auth.RateLimit.{
  IsCounter, Redis, allowed, failed, max_hits_per_window, rate_key,
}
use lumen_ai_support_agent.Knowledge.Chunker.Blocks.{text_eq}
use lumen_ai_support_agent.Prelude.{
  Bool-cases, [], ap, arith, if◌then◌else◌, inl, inr, ltb, none, none≢some, refl, some,
  some-injective, suc, sym, ℕ, ◌++◌, ◌+◌, ◌<◌, ◌∙◌, ◌∷◌, ◌≡◌, ◌≢◌, ◌≤◌,
}
use lumen_ai_support_agent.Knowledge.Text.{Text, code_points, is_blank, is_space}
use lumen_ai_support_agent.Auth.ClientIp.{
  HttpRequest, client_ip, client_ip_unspoofed, entries, keep, kept, pick, split_commas, strip,
  strip_left, strip_right,
}

abbrev spoofed : Text
spoofed = code_points "6.6.6.6"

abbrev appended : Text
appended = code_points " 1.2.3.4 , 10.0.0.1"

client_ip_unspoofed_example :
    client_ip 1 (record { forwarded_for = some (spoofed ++ 44 ∷ appended); client_host = none })
    ≡ client_ip 1 (record { forwarded_for = some appended; client_host = none })
unfolding entries kept keep strip strip_right strip_left split_commas is_space
client_ip_unspoofed_example =
    client_ip_unspoofed 1 spoofed appended none (omega arith) (omega arith)

client_ip_test :
    client_ip 1 (record { forwarded_for = some appended; client_host = none })
    ≡ code_points "1.2.3.4"
unfolding client_ip pick entries kept keep strip strip_left strip_right split_commas is_space
    is_blank
client_ip_test = refl

-- What a key holds: one less than its count, and its expiry.
abbrev Counts : Type 0
Counts = Text → ℕ × ℕ

abbrev live_count : ℕ → ℕ × ℕ → ℕ
live_count t (c, end) = if ltb t end then suc c else 0

abbrev bumped : ℕ → ℕ × ℕ → ℕ × ℕ
bumped now (c, end) = if ltb now end then (suc c, end) else (0, now + 60)

abbrev put_count : Text → ℕ × ℕ → Counts → Counts
put_count k v s j = if text_eq j k then v else s j

abbrev counting : Redis Counts
counting = record {
  execute = λ now k s. (some (suc (bumped now (s k)).0), put_count k (bumped now (s k)) s);
  live = λ t k s. live_count t (s k);
  ends = λ k s. (s k).1;
}

bumped_live : (now : ℕ) (v : ℕ × ℕ) → suc (bumped now v).0 ≡ suc (live_count now v)
bumped_live now (c, end) = ground arith

bumped_opens : (now : ℕ) (v : ℕ × ℕ) → live_count now v ≡ 0 → (bumped now v).1 ≡ now + 60
bumped_opens now (c, end) h = ground (arith, h)

bumped_runs_on : (now : ℕ) (v : ℕ × ℕ) → now < v.1 → (bumped now v).1 ≡ v.1
bumped_runs_on now (c, end) h = ground (arith, h)

live_stays : (t : ℕ) (v : ℕ × ℕ) → t < v.1 → live_count t v ≡ suc v.0
live_stays t (c, end) h = ground (arith, h)

put-hit : (k : Text) (v : ℕ × ℕ) (s : Counts) → put_count k v s k ≡ v
put-hit k v s = rw (text_eq_refl k) refl

put-other : (j k : Text) (v : ℕ × ℕ) (s : Counts) → j ≢ k → put_count k v s j ≡ s j
put-other j k v s n = elim (Bool-cases (text_eq j k)) [
  | inl y ↦ absurd (n (text_eq_sound j k y))
  | inr e ↦ rw e refl
]

counting-IsCounter : IsCounter counting
counting-IsCounter = record {
  counts = λ now k s c h. sym (some-injective h) ∙ bumped_live now (s k);
  opens = λ now k s c h fresh. ap (λ v. v.1) (put-hit k _ s) ∙ bumped_opens now (s k) fresh;
  runs_on = λ now k s c h some_hits b. ap (λ v. v.1) (put-hit k _ s) ∙ bumped_runs_on now (s k) b;
  stays = λ now later k s c h b.
      ap (live_count later) (put-hit k _ s)
      ∙ live_stays later (bumped now (s k))
          (rw (sym (ap (λ (v : ℕ × ℕ). v.1) (put-hit k (bumped now (s k)) s))) b)
      ∙ some-injective h;
  raises = λ now later k s h. absurd (none≢some (sym h));
  raises_ends = λ now k s h live b. absurd (none≢some (sym h));
  apart = λ now later k other s n.
      (ap (live_count later) (put-other k other _ s n), ap (λ v. v.1) (put-other k other _ s n));
}

abbrev caller : HttpRequest
caller = record { forwarded_for = none; client_host = some (code_points "1.2.3.4") }

allowed-window_example :
    allowed counting 0
      (rate_key (client_ip 0 caller))
      ((5, caller) ∷ (64, caller) ∷ [])
      (λ k. (0, 0))
    ≤ max_hits_per_window
      + failed counting 0
          (rate_key (client_ip 0 caller))
          ((5, caller) ∷ (64, caller) ∷ [])
          (λ k. (0, 0))
allowed-window_example =
    allowed-window counting counting-IsCounter 0 (rate_key (client_ip 0 caller)) 5 caller
      ((64, caller) ∷ []) (λ k. (0, 0)) 1 refl refl refl (omega arith, tt)
