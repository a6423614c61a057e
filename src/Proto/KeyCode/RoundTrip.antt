-- ===== src/Proto/KeyCode/RoundTrip.antt =====
-- The wire values of key codes: dense, in the order of the list, and read back by `from_u16`.
use vmscren_share.Prelude.{
  ℕ, zero, suc, ◌+◌, ◌<◌, ◌≡◌, ◌↔◌, refl, sym, ◌∙◌, Bool, true, ◌&&◌, ◌==◌, ==→eq, and→, some,
  Option-cases, inl, inr, List, [], ◌∷◌, get_elem?, find?, arith,
}
use vmscren_share.Proto.KeyCode.{KeyCode, all, as_u16, from_u16}

module _ {ℓ} {A : Type ℓ} where
  -- What `find` returns passes the test.
  find?_sound : (p : A → Bool) (xs : List A) {x : A} → find? p xs ≡ some x → p x ≡ true
  find?_sound p [] h = cc
  find?_sound p (y ∷ ys) {x} h = ground (arith, find?_sound p ys {x = x})

numbered : ℕ → List KeyCode → Bool
numbered i [] = true
numbered i (k ∷ ks) = as_u16 k == i && numbered (suc i) ks

numbered-get_elem? :
    (i n : ℕ) (ks : List KeyCode) {k : KeyCode}
    → numbered i ks ≡ true
    → get_elem? ks n ≡ some k
    → as_u16 k ≡ i + n
unfolding numbered
numbered-get_elem? i n [] h e = cc
numbered-get_elem? i zero (k' ∷ ks) {k} h e = ground arith
numbered-get_elem? i (suc n) (k' ∷ ks) {k} h e = omega (
  arith,
  numbered-get_elem? (suc i) n ks {k = k} (and→ (as_u16 k' == i) (numbered (suc i) ks) h).1 e,
)

numbered-all : numbered 0 all ≡ true
unfolding numbered all as_u16
numbered-all = refl

from_u16-as_u16 : (k : KeyCode) → from_u16 (as_u16 k) ≡ some k
unfolding from_u16
from_u16-as_u16 KeyCode.backquote = refl
from_u16-as_u16 KeyCode.backslash = refl
from_u16-as_u16 KeyCode.bracket_left = refl
from_u16-as_u16 KeyCode.bracket_right = refl
from_u16-as_u16 KeyCode.comma = refl
from_u16-as_u16 KeyCode.digit0 = refl
from_u16-as_u16 KeyCode.digit1 = refl
from_u16-as_u16 KeyCode.digit2 = refl
from_u16-as_u16 KeyCode.digit3 = refl
from_u16-as_u16 KeyCode.digit4 = refl
from_u16-as_u16 KeyCode.digit5 = refl
from_u16-as_u16 KeyCode.digit6 = refl
from_u16-as_u16 KeyCode.digit7 = refl
from_u16-as_u16 KeyCode.digit8 = refl
from_u16-as_u16 KeyCode.digit9 = refl
from_u16-as_u16 KeyCode.equal = refl
from_u16-as_u16 KeyCode.intl_backslash = refl
from_u16-as_u16 KeyCode.intl_ro = refl
from_u16-as_u16 KeyCode.intl_yen = refl
from_u16-as_u16 KeyCode.key_a = refl
from_u16-as_u16 KeyCode.key_b = refl
from_u16-as_u16 KeyCode.key_c = refl
from_u16-as_u16 KeyCode.key_d = refl
from_u16-as_u16 KeyCode.key_e = refl
from_u16-as_u16 KeyCode.key_f = refl
from_u16-as_u16 KeyCode.key_g = refl
from_u16-as_u16 KeyCode.key_h = refl
from_u16-as_u16 KeyCode.key_i = refl
from_u16-as_u16 KeyCode.key_j = refl
from_u16-as_u16 KeyCode.key_k = refl
from_u16-as_u16 KeyCode.key_l = refl
from_u16-as_u16 KeyCode.key_m = refl
from_u16-as_u16 KeyCode.key_n = refl
from_u16-as_u16 KeyCode.key_o = refl
from_u16-as_u16 KeyCode.key_p = refl
from_u16-as_u16 KeyCode.key_q = refl
from_u16-as_u16 KeyCode.key_r = refl
from_u16-as_u16 KeyCode.key_s = refl
from_u16-as_u16 KeyCode.key_t = refl
from_u16-as_u16 KeyCode.key_u = refl
from_u16-as_u16 KeyCode.key_v = refl
from_u16-as_u16 KeyCode.key_w = refl
from_u16-as_u16 KeyCode.key_x = refl
from_u16-as_u16 KeyCode.key_y = refl
from_u16-as_u16 KeyCode.key_z = refl
from_u16-as_u16 KeyCode.minus = refl
from_u16-as_u16 KeyCode.period = refl
from_u16-as_u16 KeyCode.quote = refl
from_u16-as_u16 KeyCode.semicolon = refl
from_u16-as_u16 KeyCode.slash = refl
from_u16-as_u16 KeyCode.alt_left = refl
from_u16-as_u16 KeyCode.alt_right = refl
from_u16-as_u16 KeyCode.backspace = refl
from_u16-as_u16 KeyCode.caps_lock = refl
from_u16-as_u16 KeyCode.context_menu = refl
from_u16-as_u16 KeyCode.control_left = refl
from_u16-as_u16 KeyCode.control_right = refl
from_u16-as_u16 KeyCode.enter = refl
from_u16-as_u16 KeyCode.super_left = refl
from_u16-as_u16 KeyCode.super_right = refl
from_u16-as_u16 KeyCode.shift_left = refl
from_u16-as_u16 KeyCode.shift_right = refl
from_u16-as_u16 KeyCode.space = refl
from_u16-as_u16 KeyCode.tab = refl
from_u16-as_u16 KeyCode.convert = refl
from_u16-as_u16 KeyCode.kana_mode = refl
from_u16-as_u16 KeyCode.lang1 = refl
from_u16-as_u16 KeyCode.lang2 = refl
from_u16-as_u16 KeyCode.lang3 = refl
from_u16-as_u16 KeyCode.lang4 = refl
from_u16-as_u16 KeyCode.lang5 = refl
from_u16-as_u16 KeyCode.non_convert = refl
from_u16-as_u16 KeyCode.delete = refl
from_u16-as_u16 KeyCode.end = refl
from_u16-as_u16 KeyCode.help = refl
from_u16-as_u16 KeyCode.home = refl
from_u16-as_u16 KeyCode.insert = refl
from_u16-as_u16 KeyCode.page_down = refl
from_u16-as_u16 KeyCode.page_up = refl
from_u16-as_u16 KeyCode.arrow_down = refl
from_u16-as_u16 KeyCode.arrow_left = refl
from_u16-as_u16 KeyCode.arrow_right = refl
from_u16-as_u16 KeyCode.arrow_up = refl
from_u16-as_u16 KeyCode.num_lock = refl
from_u16-as_u16 KeyCode.numpad0 = refl
from_u16-as_u16 KeyCode.numpad1 = refl
from_u16-as_u16 KeyCode.numpad2 = refl
from_u16-as_u16 KeyCode.numpad3 = refl
from_u16-as_u16 KeyCode.numpad4 = refl
from_u16-as_u16 KeyCode.numpad5 = refl
from_u16-as_u16 KeyCode.numpad6 = refl
from_u16-as_u16 KeyCode.numpad7 = refl
from_u16-as_u16 KeyCode.numpad8 = refl
from_u16-as_u16 KeyCode.numpad9 = refl
from_u16-as_u16 KeyCode.numpad_add = refl
from_u16-as_u16 KeyCode.numpad_backspace = refl
from_u16-as_u16 KeyCode.numpad_clear = refl
from_u16-as_u16 KeyCode.numpad_clear_entry = refl
from_u16-as_u16 KeyCode.numpad_comma = refl
from_u16-as_u16 KeyCode.numpad_decimal = refl
from_u16-as_u16 KeyCode.numpad_divide = refl
from_u16-as_u16 KeyCode.numpad_enter = refl
from_u16-as_u16 KeyCode.numpad_equal = refl
from_u16-as_u16 KeyCode.numpad_hash = refl
from_u16-as_u16 KeyCode.numpad_memory_add = refl
from_u16-as_u16 KeyCode.numpad_memory_clear = refl
from_u16-as_u16 KeyCode.numpad_memory_recall = refl
from_u16-as_u16 KeyCode.numpad_memory_store = refl
from_u16-as_u16 KeyCode.numpad_memory_subtract = refl
from_u16-as_u16 KeyCode.numpad_multiply = refl
from_u16-as_u16 KeyCode.numpad_paren_left = refl
from_u16-as_u16 KeyCode.numpad_paren_right = refl
from_u16-as_u16 KeyCode.numpad_star = refl
from_u16-as_u16 KeyCode.numpad_subtract = refl
from_u16-as_u16 KeyCode.escape = refl
from_u16-as_u16 KeyCode.fn = refl
from_u16-as_u16 KeyCode.fn_lock = refl
from_u16-as_u16 KeyCode.print_screen = refl
from_u16-as_u16 KeyCode.scroll_lock = refl
from_u16-as_u16 KeyCode.pause = refl
from_u16-as_u16 KeyCode.browser_back = refl
from_u16-as_u16 KeyCode.browser_favorites = refl
from_u16-as_u16 KeyCode.browser_forward = refl
from_u16-as_u16 KeyCode.browser_home = refl
from_u16-as_u16 KeyCode.browser_refresh = refl
from_u16-as_u16 KeyCode.browser_search = refl
from_u16-as_u16 KeyCode.browser_stop = refl
from_u16-as_u16 KeyCode.eject = refl
from_u16-as_u16 KeyCode.launch_app1 = refl
from_u16-as_u16 KeyCode.launch_app2 = refl
from_u16-as_u16 KeyCode.launch_mail = refl
from_u16-as_u16 KeyCode.media_play_pause = refl
from_u16-as_u16 KeyCode.media_select = refl
from_u16-as_u16 KeyCode.media_stop = refl
from_u16-as_u16 KeyCode.media_track_next = refl
from_u16-as_u16 KeyCode.media_track_previous = refl
from_u16-as_u16 KeyCode.power = refl
from_u16-as_u16 KeyCode.sleep = refl
from_u16-as_u16 KeyCode.audio_volume_down = refl
from_u16-as_u16 KeyCode.audio_volume_mute = refl
from_u16-as_u16 KeyCode.audio_volume_up = refl
from_u16-as_u16 KeyCode.wake_up = refl
from_u16-as_u16 KeyCode.meta = refl
from_u16-as_u16 KeyCode.hyper = refl
from_u16-as_u16 KeyCode.turbo = refl
from_u16-as_u16 KeyCode.abort = refl
from_u16-as_u16 KeyCode.resume = refl
from_u16-as_u16 KeyCode.suspend = refl
from_u16-as_u16 KeyCode.again = refl
from_u16-as_u16 KeyCode.copy = refl
from_u16-as_u16 KeyCode.cut = refl
from_u16-as_u16 KeyCode.find = refl
from_u16-as_u16 KeyCode.open_key = refl
from_u16-as_u16 KeyCode.paste = refl
from_u16-as_u16 KeyCode.props = refl
from_u16-as_u16 KeyCode.select = refl
from_u16-as_u16 KeyCode.undo = refl
from_u16-as_u16 KeyCode.hiragana = refl
from_u16-as_u16 KeyCode.katakana = refl
from_u16-as_u16 KeyCode.f1 = refl
from_u16-as_u16 KeyCode.f2 = refl
from_u16-as_u16 KeyCode.f3 = refl
from_u16-as_u16 KeyCode.f4 = refl
from_u16-as_u16 KeyCode.f5 = refl
from_u16-as_u16 KeyCode.f6 = refl
from_u16-as_u16 KeyCode.f7 = refl
from_u16-as_u16 KeyCode.f8 = refl
from_u16-as_u16 KeyCode.f9 = refl
from_u16-as_u16 KeyCode.f10 = refl
from_u16-as_u16 KeyCode.f11 = refl
from_u16-as_u16 KeyCode.f12 = refl
from_u16-as_u16 KeyCode.f13 = refl
from_u16-as_u16 KeyCode.f14 = refl
from_u16-as_u16 KeyCode.f15 = refl
from_u16-as_u16 KeyCode.f16 = refl
from_u16-as_u16 KeyCode.f17 = refl
from_u16-as_u16 KeyCode.f18 = refl
from_u16-as_u16 KeyCode.f19 = refl
from_u16-as_u16 KeyCode.f20 = refl
from_u16-as_u16 KeyCode.f21 = refl
from_u16-as_u16 KeyCode.f22 = refl
from_u16-as_u16 KeyCode.f23 = refl
from_u16-as_u16 KeyCode.f24 = refl
from_u16-as_u16 KeyCode.f25 = refl
from_u16-as_u16 KeyCode.f26 = refl
from_u16-as_u16 KeyCode.f27 = refl
from_u16-as_u16 KeyCode.f28 = refl
from_u16-as_u16 KeyCode.f29 = refl
from_u16-as_u16 KeyCode.f30 = refl
from_u16-as_u16 KeyCode.f31 = refl
from_u16-as_u16 KeyCode.f32 = refl
from_u16-as_u16 KeyCode.f33 = refl
from_u16-as_u16 KeyCode.f34 = refl
from_u16-as_u16 KeyCode.f35 = refl

get_elem?-as_u16 : (k : KeyCode) → get_elem? all (as_u16 k) ≡ some k
unfolding all as_u16
get_elem?-as_u16 KeyCode.backquote = refl
get_elem?-as_u16 KeyCode.backslash = refl
get_elem?-as_u16 KeyCode.bracket_left = refl
get_elem?-as_u16 KeyCode.bracket_right = refl
get_elem?-as_u16 KeyCode.comma = refl
get_elem?-as_u16 KeyCode.digit0 = refl
get_elem?-as_u16 KeyCode.digit1 = refl
get_elem?-as_u16 KeyCode.digit2 = refl
get_elem?-as_u16 KeyCode.digit3 = refl
get_elem?-as_u16 KeyCode.digit4 = refl
get_elem?-as_u16 KeyCode.digit5 = refl
get_elem?-as_u16 KeyCode.digit6 = refl
get_elem?-as_u16 KeyCode.digit7 = refl
get_elem?-as_u16 KeyCode.digit8 = refl
get_elem?-as_u16 KeyCode.digit9 = refl
get_elem?-as_u16 KeyCode.equal = refl
get_elem?-as_u16 KeyCode.intl_backslash = refl
get_elem?-as_u16 KeyCode.intl_ro = refl
get_elem?-as_u16 KeyCode.intl_yen = refl
get_elem?-as_u16 KeyCode.key_a = refl
get_elem?-as_u16 KeyCode.key_b = refl
get_elem?-as_u16 KeyCode.key_c = refl
get_elem?-as_u16 KeyCode.key_d = refl
get_elem?-as_u16 KeyCode.key_e = refl
get_elem?-as_u16 KeyCode.key_f = refl
get_elem?-as_u16 KeyCode.key_g = refl
get_elem?-as_u16 KeyCode.key_h = refl
get_elem?-as_u16 KeyCode.key_i = refl
get_elem?-as_u16 KeyCode.key_j = refl
get_elem?-as_u16 KeyCode.key_k = refl
get_elem?-as_u16 KeyCode.key_l = refl
get_elem?-as_u16 KeyCode.key_m = refl
get_elem?-as_u16 KeyCode.key_n = refl
get_elem?-as_u16 KeyCode.key_o = refl
get_elem?-as_u16 KeyCode.key_p = refl
get_elem?-as_u16 KeyCode.key_q = refl
get_elem?-as_u16 KeyCode.key_r = refl
get_elem?-as_u16 KeyCode.key_s = refl
get_elem?-as_u16 KeyCode.key_t = refl
get_elem?-as_u16 KeyCode.key_u = refl
get_elem?-as_u16 KeyCode.key_v = refl
get_elem?-as_u16 KeyCode.key_w = refl
get_elem?-as_u16 KeyCode.key_x = refl
get_elem?-as_u16 KeyCode.key_y = refl
get_elem?-as_u16 KeyCode.key_z = refl
get_elem?-as_u16 KeyCode.minus = refl
get_elem?-as_u16 KeyCode.period = refl
get_elem?-as_u16 KeyCode.quote = refl
get_elem?-as_u16 KeyCode.semicolon = refl
get_elem?-as_u16 KeyCode.slash = refl
get_elem?-as_u16 KeyCode.alt_left = refl
get_elem?-as_u16 KeyCode.alt_right = refl
get_elem?-as_u16 KeyCode.backspace = refl
get_elem?-as_u16 KeyCode.caps_lock = refl
get_elem?-as_u16 KeyCode.context_menu = refl
get_elem?-as_u16 KeyCode.control_left = refl
get_elem?-as_u16 KeyCode.control_right = refl
get_elem?-as_u16 KeyCode.enter = refl
get_elem?-as_u16 KeyCode.super_left = refl
get_elem?-as_u16 KeyCode.super_right = refl
get_elem?-as_u16 KeyCode.shift_left = refl
get_elem?-as_u16 KeyCode.shift_right = refl
get_elem?-as_u16 KeyCode.space = refl
get_elem?-as_u16 KeyCode.tab = refl
get_elem?-as_u16 KeyCode.convert = refl
get_elem?-as_u16 KeyCode.kana_mode = refl
get_elem?-as_u16 KeyCode.lang1 = refl
get_elem?-as_u16 KeyCode.lang2 = refl
get_elem?-as_u16 KeyCode.lang3 = refl
get_elem?-as_u16 KeyCode.lang4 = refl
get_elem?-as_u16 KeyCode.lang5 = refl
get_elem?-as_u16 KeyCode.non_convert = refl
get_elem?-as_u16 KeyCode.delete = refl
get_elem?-as_u16 KeyCode.end = refl
get_elem?-as_u16 KeyCode.help = refl
get_elem?-as_u16 KeyCode.home = refl
get_elem?-as_u16 KeyCode.insert = refl
get_elem?-as_u16 KeyCode.page_down = refl
get_elem?-as_u16 KeyCode.page_up = refl
get_elem?-as_u16 KeyCode.arrow_down = refl
get_elem?-as_u16 KeyCode.arrow_left = refl
get_elem?-as_u16 KeyCode.arrow_right = refl
get_elem?-as_u16 KeyCode.arrow_up = refl
get_elem?-as_u16 KeyCode.num_lock = refl
get_elem?-as_u16 KeyCode.numpad0 = refl
get_elem?-as_u16 KeyCode.numpad1 = refl
get_elem?-as_u16 KeyCode.numpad2 = refl
get_elem?-as_u16 KeyCode.numpad3 = refl
get_elem?-as_u16 KeyCode.numpad4 = refl
get_elem?-as_u16 KeyCode.numpad5 = refl
get_elem?-as_u16 KeyCode.numpad6 = refl
get_elem?-as_u16 KeyCode.numpad7 = refl
get_elem?-as_u16 KeyCode.numpad8 = refl
get_elem?-as_u16 KeyCode.numpad9 = refl
get_elem?-as_u16 KeyCode.numpad_add = refl
get_elem?-as_u16 KeyCode.numpad_backspace = refl
get_elem?-as_u16 KeyCode.numpad_clear = refl
get_elem?-as_u16 KeyCode.numpad_clear_entry = refl
get_elem?-as_u16 KeyCode.numpad_comma = refl
get_elem?-as_u16 KeyCode.numpad_decimal = refl
get_elem?-as_u16 KeyCode.numpad_divide = refl
get_elem?-as_u16 KeyCode.numpad_enter = refl
get_elem?-as_u16 KeyCode.numpad_equal = refl
get_elem?-as_u16 KeyCode.numpad_hash = refl
get_elem?-as_u16 KeyCode.numpad_memory_add = refl
get_elem?-as_u16 KeyCode.numpad_memory_clear = refl
get_elem?-as_u16 KeyCode.numpad_memory_recall = refl
get_elem?-as_u16 KeyCode.numpad_memory_store = refl
get_elem?-as_u16 KeyCode.numpad_memory_subtract = refl
get_elem?-as_u16 KeyCode.numpad_multiply = refl
get_elem?-as_u16 KeyCode.numpad_paren_left = refl
get_elem?-as_u16 KeyCode.numpad_paren_right = refl
get_elem?-as_u16 KeyCode.numpad_star = refl
get_elem?-as_u16 KeyCode.numpad_subtract = refl
get_elem?-as_u16 KeyCode.escape = refl
get_elem?-as_u16 KeyCode.fn = refl
get_elem?-as_u16 KeyCode.fn_lock = refl
get_elem?-as_u16 KeyCode.print_screen = refl
get_elem?-as_u16 KeyCode.scroll_lock = refl
get_elem?-as_u16 KeyCode.pause = refl
get_elem?-as_u16 KeyCode.browser_back = refl
get_elem?-as_u16 KeyCode.browser_favorites = refl
get_elem?-as_u16 KeyCode.browser_forward = refl
get_elem?-as_u16 KeyCode.browser_home = refl
get_elem?-as_u16 KeyCode.browser_refresh = refl
get_elem?-as_u16 KeyCode.browser_search = refl
get_elem?-as_u16 KeyCode.browser_stop = refl
get_elem?-as_u16 KeyCode.eject = refl
get_elem?-as_u16 KeyCode.launch_app1 = refl
get_elem?-as_u16 KeyCode.launch_app2 = refl
get_elem?-as_u16 KeyCode.launch_mail = refl
get_elem?-as_u16 KeyCode.media_play_pause = refl
get_elem?-as_u16 KeyCode.media_select = refl
get_elem?-as_u16 KeyCode.media_stop = refl
get_elem?-as_u16 KeyCode.media_track_next = refl
get_elem?-as_u16 KeyCode.media_track_previous = refl
get_elem?-as_u16 KeyCode.power = refl
get_elem?-as_u16 KeyCode.sleep = refl
get_elem?-as_u16 KeyCode.audio_volume_down = refl
get_elem?-as_u16 KeyCode.audio_volume_mute = refl
get_elem?-as_u16 KeyCode.audio_volume_up = refl
get_elem?-as_u16 KeyCode.wake_up = refl
get_elem?-as_u16 KeyCode.meta = refl
get_elem?-as_u16 KeyCode.hyper = refl
get_elem?-as_u16 KeyCode.turbo = refl
get_elem?-as_u16 KeyCode.abort = refl
get_elem?-as_u16 KeyCode.resume = refl
get_elem?-as_u16 KeyCode.suspend = refl
get_elem?-as_u16 KeyCode.again = refl
get_elem?-as_u16 KeyCode.copy = refl
get_elem?-as_u16 KeyCode.cut = refl
get_elem?-as_u16 KeyCode.find = refl
get_elem?-as_u16 KeyCode.open_key = refl
get_elem?-as_u16 KeyCode.paste = refl
get_elem?-as_u16 KeyCode.props = refl
get_elem?-as_u16 KeyCode.select = refl
get_elem?-as_u16 KeyCode.undo = refl
get_elem?-as_u16 KeyCode.hiragana = refl
get_elem?-as_u16 KeyCode.katakana = refl
get_elem?-as_u16 KeyCode.f1 = refl
get_elem?-as_u16 KeyCode.f2 = refl
get_elem?-as_u16 KeyCode.f3 = refl
get_elem?-as_u16 KeyCode.f4 = refl
get_elem?-as_u16 KeyCode.f5 = refl
get_elem?-as_u16 KeyCode.f6 = refl
get_elem?-as_u16 KeyCode.f7 = refl
get_elem?-as_u16 KeyCode.f8 = refl
get_elem?-as_u16 KeyCode.f9 = refl
get_elem?-as_u16 KeyCode.f10 = refl
get_elem?-as_u16 KeyCode.f11 = refl
get_elem?-as_u16 KeyCode.f12 = refl
get_elem?-as_u16 KeyCode.f13 = refl
get_elem?-as_u16 KeyCode.f14 = refl
get_elem?-as_u16 KeyCode.f15 = refl
get_elem?-as_u16 KeyCode.f16 = refl
get_elem?-as_u16 KeyCode.f17 = refl
get_elem?-as_u16 KeyCode.f18 = refl
get_elem?-as_u16 KeyCode.f19 = refl
get_elem?-as_u16 KeyCode.f20 = refl
get_elem?-as_u16 KeyCode.f21 = refl
get_elem?-as_u16 KeyCode.f22 = refl
get_elem?-as_u16 KeyCode.f23 = refl
get_elem?-as_u16 KeyCode.f24 = refl
get_elem?-as_u16 KeyCode.f25 = refl
get_elem?-as_u16 KeyCode.f26 = refl
get_elem?-as_u16 KeyCode.f27 = refl
get_elem?-as_u16 KeyCode.f28 = refl
get_elem?-as_u16 KeyCode.f29 = refl
get_elem?-as_u16 KeyCode.f30 = refl
get_elem?-as_u16 KeyCode.f31 = refl
get_elem?-as_u16 KeyCode.f32 = refl
get_elem?-as_u16 KeyCode.f33 = refl
get_elem?-as_u16 KeyCode.f34 = refl
get_elem?-as_u16 KeyCode.f35 = refl

-- A wire value decodes to a key code exactly when it is the discriminant of that code.
pub from_u16-as_u16_iff : (v : ℕ) (k : KeyCode) → (from_u16 v ≡ some k) ↔ (as_u16 k ≡ v)
unfolding from_u16
from_u16-as_u16_iff v k = (
  λ h. ==→eq (as_u16 k) v (find?_sound (λ j. as_u16 j == v) all h),
  λ e. rw (sym e) (from_u16-as_u16 k),
)

listed : (v : ℕ) (k : KeyCode) → from_u16 v ≡ some k → get_elem? all v ≡ some k
listed v k d = rw (sym ((from_u16-as_u16_iff v k).0 d)) (get_elem?-as_u16 k)

-- The wire value is the position in the list: decoding a number is indexing `ALL` by it, and a
-- number past the end of the list decodes to nothing.
pub from_u16-get_elem? : (v : ℕ) → from_u16 v ≡ get_elem? all v
from_u16-get_elem? v = elim (Option-cases (get_elem? all v)) [
  | inr (k, e) ↦
      (from_u16-as_u16_iff v k).1 (omega (arith, numbered-get_elem? 0 v all numbered-all e)) ∙ sym e
  | inl e ↦ elim (Option-cases (from_u16 v)) [ inl d ↦ d ∙ sym e | inr (k, d) ↦ cc (listed v k d) ]
]

-- A wire value fits a u16.
pub as_u16-lt : (k : KeyCode) → as_u16 k < 65536
unfolding as_u16
as_u16-lt KeyCode.backquote = omega arith
as_u16-lt _ = omega arith
