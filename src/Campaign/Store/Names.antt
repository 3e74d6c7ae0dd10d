-- ===== src/Campaign/Store/Names.antt =====
-- The three files of a campaign have different names, and those of two campaigns differ.
use mathlib.Core.List.{append_cancel_right}
use helios_net.Prelude.{ℕ, ◌≡◌, ◌≢◌, refl, sym, ap, ◌∙◌, [], ◌∷◌, ◌++◌, arith}
use helios_net.Prelude.Text.{Text, codes}
use helios_net.Campaign.Store.{state_path, tmp_path, log_path}

last_of : Text → ℕ
last_of [] = 0
last_of (c ∷ []) = c
last_of (c ∷ d ∷ s) = last_of (d ∷ s)

last_of-append : (s : Text) (c : ℕ) (t : Text) → last_of (s ++ c ∷ t) ≡ last_of (c ∷ t)
unfolding last_of
last_of-append [] c t = refl
last_of-append (a ∷ []) c t = refl
last_of-append (a ∷ b ∷ s) c t = last_of-append (b ∷ s) c t

pub state_path-ne-tmp_path : (a b : Text) → state_path a ≢ tmp_path b
unfolding last_of
state_path-ne-tmp_path a b h =
    clash (sym (last_of-append a _ _) ∙ ap last_of h ∙ last_of-append b _ _)
  where
    clash : ¬ (◌≡◌ {A = ℕ} b'n' b'p')
    clash e = omega arith

pub state_path-ne-log_path : (a b : Text) → state_path a ≢ log_path b
unfolding last_of
state_path-ne-log_path a b h =
    clash (sym (last_of-append a _ _) ∙ ap last_of h ∙ last_of-append b _ _)
  where
    clash : ¬ (◌≡◌ {A = ℕ} b'n' b'l')
    clash e = omega arith

pub log_path-ne-tmp_path : (a b : Text) → log_path a ≢ tmp_path b
unfolding last_of
log_path-ne-tmp_path a b h =
    clash (sym (last_of-append a _ _) ∙ ap last_of h ∙ last_of-append b _ _)
  where
    clash : ¬ (◌≡◌ {A = ℕ} b'l' b'p')
    clash e = omega arith

pub state_path-eq : (a b : Text) → state_path a ≡ state_path b → a ≡ b
state_path-eq a b h = append_cancel_right a b (codes ".json") h

pub log_path-eq : (a b : Text) → log_path a ≡ log_path b → a ≡ b
log_path-eq a b h = append_cancel_right a b (codes ".log.jsonl") h
