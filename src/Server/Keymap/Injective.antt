-- ===== src/Server/Keymap/Injective.antt =====
-- Distinct keys and buttons have distinct evdev codes, but for the two documented duplicates.
use vmscren_share.Prelude.{◌≡◌, ◌↔◌, ◌⊎◌, refl, sym, ap, ◌∙◌, inl, inr, none, some, arith}
use mathlib.Core.Option
use vmscren_share.Proto.KeyCode.{KeyCode}
use vmscren_share.Server.Keymap.{Ev, to_evdev}

-- The W3C name of a physical key that the list names twice: Lang3 and Katakana are one key, and
-- Lang4 and Hiragana are one.
abbrev pub physical : KeyCode → KeyCode
physical KeyCode.katakana = KeyCode.lang3
physical KeyCode.hiragana = KeyCode.lang4
physical k = k

-- The key that an evdev code stands for, and a stand-in for the codes of buttons.
origin : Ev → KeyCode
origin Ev.key_grave = KeyCode.backquote
origin Ev.key_backslash = KeyCode.backslash
origin Ev.key_leftbrace = KeyCode.bracket_left
origin Ev.key_rightbrace = KeyCode.bracket_right
origin Ev.key_comma = KeyCode.comma
origin Ev.key_0 = KeyCode.digit0
origin Ev.key_1 = KeyCode.digit1
origin Ev.key_2 = KeyCode.digit2
origin Ev.key_3 = KeyCode.digit3
origin Ev.key_4 = KeyCode.digit4
origin Ev.key_5 = KeyCode.digit5
origin Ev.key_6 = KeyCode.digit6
origin Ev.key_7 = KeyCode.digit7
origin Ev.key_8 = KeyCode.digit8
origin Ev.key_9 = KeyCode.digit9
origin Ev.key_equal = KeyCode.equal
origin Ev.key_102nd = KeyCode.intl_backslash
origin Ev.key_ro = KeyCode.intl_ro
origin Ev.key_yen = KeyCode.intl_yen
origin Ev.key_a = KeyCode.key_a
origin Ev.key_b = KeyCode.key_b
origin Ev.key_c = KeyCode.key_c
origin Ev.key_d = KeyCode.key_d
origin Ev.key_e = KeyCode.key_e
origin Ev.key_f = KeyCode.key_f
origin Ev.key_g = KeyCode.key_g
origin Ev.key_h = KeyCode.key_h
origin Ev.key_i = KeyCode.key_i
origin Ev.key_j = KeyCode.key_j
origin Ev.key_k = KeyCode.key_k
origin Ev.key_l = KeyCode.key_l
origin Ev.key_m = KeyCode.key_m
origin Ev.key_n = KeyCode.key_n
origin Ev.key_o = KeyCode.key_o
origin Ev.key_p = KeyCode.key_p
origin Ev.key_q = KeyCode.key_q
origin Ev.key_r = KeyCode.key_r
origin Ev.key_s = KeyCode.key_s
origin Ev.key_t = KeyCode.key_t
origin Ev.key_u = KeyCode.key_u
origin Ev.key_v = KeyCode.key_v
origin Ev.key_w = KeyCode.key_w
origin Ev.key_x = KeyCode.key_x
origin Ev.key_y = KeyCode.key_y
origin Ev.key_z = KeyCode.key_z
origin Ev.key_minus = KeyCode.minus
origin Ev.key_dot = KeyCode.period
origin Ev.key_apostrophe = KeyCode.quote
origin Ev.key_semicolon = KeyCode.semicolon
origin Ev.key_slash = KeyCode.slash
origin Ev.key_leftalt = KeyCode.alt_left
origin Ev.key_rightalt = KeyCode.alt_right
origin Ev.key_backspace = KeyCode.backspace
origin Ev.key_capslock = KeyCode.caps_lock
origin Ev.key_compose = KeyCode.context_menu
origin Ev.key_leftctrl = KeyCode.control_left
origin Ev.key_rightctrl = KeyCode.control_right
origin Ev.key_enter = KeyCode.enter
origin Ev.key_leftmeta = KeyCode.super_left
origin Ev.key_rightmeta = KeyCode.super_right
origin Ev.key_leftshift = KeyCode.shift_left
origin Ev.key_rightshift = KeyCode.shift_right
origin Ev.key_space = KeyCode.space
origin Ev.key_tab = KeyCode.tab
origin Ev.key_henkan = KeyCode.convert
origin Ev.key_katakanahiragana = KeyCode.kana_mode
origin Ev.key_hangeul = KeyCode.lang1
origin Ev.key_hanja = KeyCode.lang2
origin Ev.key_katakana = KeyCode.lang3
origin Ev.key_hiragana = KeyCode.lang4
origin Ev.key_zenkakuhankaku = KeyCode.lang5
origin Ev.key_muhenkan = KeyCode.non_convert
origin Ev.key_delete = KeyCode.delete
origin Ev.key_end = KeyCode.end
origin Ev.key_help = KeyCode.help
origin Ev.key_home = KeyCode.home
origin Ev.key_insert = KeyCode.insert
origin Ev.key_pagedown = KeyCode.page_down
origin Ev.key_pageup = KeyCode.page_up
origin Ev.key_down = KeyCode.arrow_down
origin Ev.key_left = KeyCode.arrow_left
origin Ev.key_right = KeyCode.arrow_right
origin Ev.key_up = KeyCode.arrow_up
origin Ev.key_numlock = KeyCode.num_lock
origin Ev.key_kp0 = KeyCode.numpad0
origin Ev.key_kp1 = KeyCode.numpad1
origin Ev.key_kp2 = KeyCode.numpad2
origin Ev.key_kp3 = KeyCode.numpad3
origin Ev.key_kp4 = KeyCode.numpad4
origin Ev.key_kp5 = KeyCode.numpad5
origin Ev.key_kp6 = KeyCode.numpad6
origin Ev.key_kp7 = KeyCode.numpad7
origin Ev.key_kp8 = KeyCode.numpad8
origin Ev.key_kp9 = KeyCode.numpad9
origin Ev.key_kpplus = KeyCode.numpad_add
origin Ev.key_kpcomma = KeyCode.numpad_comma
origin Ev.key_kpdot = KeyCode.numpad_decimal
origin Ev.key_kpslash = KeyCode.numpad_divide
origin Ev.key_kpenter = KeyCode.numpad_enter
origin Ev.key_kpequal = KeyCode.numpad_equal
origin Ev.key_kpasterisk = KeyCode.numpad_multiply
origin Ev.key_kpleftparen = KeyCode.numpad_paren_left
origin Ev.key_kprightparen = KeyCode.numpad_paren_right
origin Ev.key_kpminus = KeyCode.numpad_subtract
origin Ev.key_esc = KeyCode.escape
origin Ev.key_fn = KeyCode.fn
origin Ev.key_sysrq = KeyCode.print_screen
origin Ev.key_scrolllock = KeyCode.scroll_lock
origin Ev.key_pause = KeyCode.pause
origin Ev.key_back = KeyCode.browser_back
origin Ev.key_bookmarks = KeyCode.browser_favorites
origin Ev.key_forward = KeyCode.browser_forward
origin Ev.key_homepage = KeyCode.browser_home
origin Ev.key_refresh = KeyCode.browser_refresh
origin Ev.key_search = KeyCode.browser_search
origin Ev.key_stop = KeyCode.browser_stop
origin Ev.key_ejectcd = KeyCode.eject
origin Ev.key_computer = KeyCode.launch_app1
origin Ev.key_calc = KeyCode.launch_app2
origin Ev.key_mail = KeyCode.launch_mail
origin Ev.key_playpause = KeyCode.media_play_pause
origin Ev.key_media = KeyCode.media_select
origin Ev.key_stopcd = KeyCode.media_stop
origin Ev.key_nextsong = KeyCode.media_track_next
origin Ev.key_previoussong = KeyCode.media_track_previous
origin Ev.key_power = KeyCode.power
origin Ev.key_sleep = KeyCode.sleep
origin Ev.key_volumedown = KeyCode.audio_volume_down
origin Ev.key_mute = KeyCode.audio_volume_mute
origin Ev.key_volumeup = KeyCode.audio_volume_up
origin Ev.key_wakeup = KeyCode.wake_up
origin Ev.key_again = KeyCode.again
origin Ev.key_copy = KeyCode.copy
origin Ev.key_cut = KeyCode.cut
origin Ev.key_find = KeyCode.find
origin Ev.key_open = KeyCode.open_key
origin Ev.key_paste = KeyCode.paste
origin Ev.key_props = KeyCode.props
origin Ev.key_select = KeyCode.select
origin Ev.key_undo = KeyCode.undo
origin Ev.key_f1 = KeyCode.f1
origin Ev.key_f2 = KeyCode.f2
origin Ev.key_f3 = KeyCode.f3
origin Ev.key_f4 = KeyCode.f4
origin Ev.key_f5 = KeyCode.f5
origin Ev.key_f6 = KeyCode.f6
origin Ev.key_f7 = KeyCode.f7
origin Ev.key_f8 = KeyCode.f8
origin Ev.key_f9 = KeyCode.f9
origin Ev.key_f10 = KeyCode.f10
origin Ev.key_f11 = KeyCode.f11
origin Ev.key_f12 = KeyCode.f12
origin Ev.key_f13 = KeyCode.f13
origin Ev.key_f14 = KeyCode.f14
origin Ev.key_f15 = KeyCode.f15
origin Ev.key_f16 = KeyCode.f16
origin Ev.key_f17 = KeyCode.f17
origin Ev.key_f18 = KeyCode.f18
origin Ev.key_f19 = KeyCode.f19
origin Ev.key_f20 = KeyCode.f20
origin Ev.key_f21 = KeyCode.f21
origin Ev.key_f22 = KeyCode.f22
origin Ev.key_f23 = KeyCode.f23
origin Ev.key_f24 = KeyCode.f24
origin Ev.btn_left = KeyCode.backquote
origin Ev.btn_right = KeyCode.backquote
origin Ev.btn_middle = KeyCode.backquote
origin Ev.btn_side = KeyCode.backquote
origin Ev.btn_extra = KeyCode.backquote

origin-to_evdev :
    (k : KeyCode) → (to_evdev k ≡ none) ⊎ (Option.map origin (to_evdev k) ≡ some (physical k))
unfolding origin to_evdev
origin-to_evdev KeyCode.backquote = inr refl
origin-to_evdev KeyCode.backslash = inr refl
origin-to_evdev KeyCode.bracket_left = inr refl
origin-to_evdev KeyCode.bracket_right = inr refl
origin-to_evdev KeyCode.comma = inr refl
origin-to_evdev KeyCode.digit0 = inr refl
origin-to_evdev KeyCode.digit1 = inr refl
origin-to_evdev KeyCode.digit2 = inr refl
origin-to_evdev KeyCode.digit3 = inr refl
origin-to_evdev KeyCode.digit4 = inr refl
origin-to_evdev KeyCode.digit5 = inr refl
origin-to_evdev KeyCode.digit6 = inr refl
origin-to_evdev KeyCode.digit7 = inr refl
origin-to_evdev KeyCode.digit8 = inr refl
origin-to_evdev KeyCode.digit9 = inr refl
origin-to_evdev KeyCode.equal = inr refl
origin-to_evdev KeyCode.intl_backslash = inr refl
origin-to_evdev KeyCode.intl_ro = inr refl
origin-to_evdev KeyCode.intl_yen = inr refl
origin-to_evdev KeyCode.key_a = inr refl
origin-to_evdev KeyCode.key_b = inr refl
origin-to_evdev KeyCode.key_c = inr refl
origin-to_evdev KeyCode.key_d = inr refl
origin-to_evdev KeyCode.key_e = inr refl
origin-to_evdev KeyCode.key_f = inr refl
origin-to_evdev KeyCode.key_g = inr refl
origin-to_evdev KeyCode.key_h = inr refl
origin-to_evdev KeyCode.key_i = inr refl
origin-to_evdev KeyCode.key_j = inr refl
origin-to_evdev KeyCode.key_k = inr refl
origin-to_evdev KeyCode.key_l = inr refl
origin-to_evdev KeyCode.key_m = inr refl
origin-to_evdev KeyCode.key_n = inr refl
origin-to_evdev KeyCode.key_o = inr refl
origin-to_evdev KeyCode.key_p = inr refl
origin-to_evdev KeyCode.key_q = inr refl
origin-to_evdev KeyCode.key_r = inr refl
origin-to_evdev KeyCode.key_s = inr refl
origin-to_evdev KeyCode.key_t = inr refl
origin-to_evdev KeyCode.key_u = inr refl
origin-to_evdev KeyCode.key_v = inr refl
origin-to_evdev KeyCode.key_w = inr refl
origin-to_evdev KeyCode.key_x = inr refl
origin-to_evdev KeyCode.key_y = inr refl
origin-to_evdev KeyCode.key_z = inr refl
origin-to_evdev KeyCode.minus = inr refl
origin-to_evdev KeyCode.period = inr refl
origin-to_evdev KeyCode.quote = inr refl
origin-to_evdev KeyCode.semicolon = inr refl
origin-to_evdev KeyCode.slash = inr refl
origin-to_evdev KeyCode.alt_left = inr refl
origin-to_evdev KeyCode.alt_right = inr refl
origin-to_evdev KeyCode.backspace = inr refl
origin-to_evdev KeyCode.caps_lock = inr refl
origin-to_evdev KeyCode.context_menu = inr refl
origin-to_evdev KeyCode.control_left = inr refl
origin-to_evdev KeyCode.control_right = inr refl
origin-to_evdev KeyCode.enter = inr refl
origin-to_evdev KeyCode.super_left = inr refl
origin-to_evdev KeyCode.super_right = inr refl
origin-to_evdev KeyCode.shift_left = inr refl
origin-to_evdev KeyCode.shift_right = inr refl
origin-to_evdev KeyCode.space = inr refl
origin-to_evdev KeyCode.tab = inr refl
origin-to_evdev KeyCode.convert = inr refl
origin-to_evdev KeyCode.kana_mode = inr refl
origin-to_evdev KeyCode.lang1 = inr refl
origin-to_evdev KeyCode.lang2 = inr refl
origin-to_evdev KeyCode.lang3 = inr refl
origin-to_evdev KeyCode.lang4 = inr refl
origin-to_evdev KeyCode.lang5 = inr refl
origin-to_evdev KeyCode.non_convert = inr refl
origin-to_evdev KeyCode.delete = inr refl
origin-to_evdev KeyCode.end = inr refl
origin-to_evdev KeyCode.help = inr refl
origin-to_evdev KeyCode.home = inr refl
origin-to_evdev KeyCode.insert = inr refl
origin-to_evdev KeyCode.page_down = inr refl
origin-to_evdev KeyCode.page_up = inr refl
origin-to_evdev KeyCode.arrow_down = inr refl
origin-to_evdev KeyCode.arrow_left = inr refl
origin-to_evdev KeyCode.arrow_right = inr refl
origin-to_evdev KeyCode.arrow_up = inr refl
origin-to_evdev KeyCode.num_lock = inr refl
origin-to_evdev KeyCode.numpad0 = inr refl
origin-to_evdev KeyCode.numpad1 = inr refl
origin-to_evdev KeyCode.numpad2 = inr refl
origin-to_evdev KeyCode.numpad3 = inr refl
origin-to_evdev KeyCode.numpad4 = inr refl
origin-to_evdev KeyCode.numpad5 = inr refl
origin-to_evdev KeyCode.numpad6 = inr refl
origin-to_evdev KeyCode.numpad7 = inr refl
origin-to_evdev KeyCode.numpad8 = inr refl
origin-to_evdev KeyCode.numpad9 = inr refl
origin-to_evdev KeyCode.numpad_add = inr refl
origin-to_evdev KeyCode.numpad_backspace = inl refl
origin-to_evdev KeyCode.numpad_clear = inl refl
origin-to_evdev KeyCode.numpad_clear_entry = inl refl
origin-to_evdev KeyCode.numpad_comma = inr refl
origin-to_evdev KeyCode.numpad_decimal = inr refl
origin-to_evdev KeyCode.numpad_divide = inr refl
origin-to_evdev KeyCode.numpad_enter = inr refl
origin-to_evdev KeyCode.numpad_equal = inr refl
origin-to_evdev KeyCode.numpad_hash = inl refl
origin-to_evdev KeyCode.numpad_memory_add = inl refl
origin-to_evdev KeyCode.numpad_memory_clear = inl refl
origin-to_evdev KeyCode.numpad_memory_recall = inl refl
origin-to_evdev KeyCode.numpad_memory_store = inl refl
origin-to_evdev KeyCode.numpad_memory_subtract = inl refl
origin-to_evdev KeyCode.numpad_multiply = inr refl
origin-to_evdev KeyCode.numpad_paren_left = inr refl
origin-to_evdev KeyCode.numpad_paren_right = inr refl
origin-to_evdev KeyCode.numpad_star = inl refl
origin-to_evdev KeyCode.numpad_subtract = inr refl
origin-to_evdev KeyCode.escape = inr refl
origin-to_evdev KeyCode.fn = inr refl
origin-to_evdev KeyCode.fn_lock = inl refl
origin-to_evdev KeyCode.print_screen = inr refl
origin-to_evdev KeyCode.scroll_lock = inr refl
origin-to_evdev KeyCode.pause = inr refl
origin-to_evdev KeyCode.browser_back = inr refl
origin-to_evdev KeyCode.browser_favorites = inr refl
origin-to_evdev KeyCode.browser_forward = inr refl
origin-to_evdev KeyCode.browser_home = inr refl
origin-to_evdev KeyCode.browser_refresh = inr refl
origin-to_evdev KeyCode.browser_search = inr refl
origin-to_evdev KeyCode.browser_stop = inr refl
origin-to_evdev KeyCode.eject = inr refl
origin-to_evdev KeyCode.launch_app1 = inr refl
origin-to_evdev KeyCode.launch_app2 = inr refl
origin-to_evdev KeyCode.launch_mail = inr refl
origin-to_evdev KeyCode.media_play_pause = inr refl
origin-to_evdev KeyCode.media_select = inr refl
origin-to_evdev KeyCode.media_stop = inr refl
origin-to_evdev KeyCode.media_track_next = inr refl
origin-to_evdev KeyCode.media_track_previous = inr refl
origin-to_evdev KeyCode.power = inr refl
origin-to_evdev KeyCode.sleep = inr refl
origin-to_evdev KeyCode.audio_volume_down = inr refl
origin-to_evdev KeyCode.audio_volume_mute = inr refl
origin-to_evdev KeyCode.audio_volume_up = inr refl
origin-to_evdev KeyCode.wake_up = inr refl
origin-to_evdev KeyCode.meta = inl refl
origin-to_evdev KeyCode.hyper = inl refl
origin-to_evdev KeyCode.turbo = inl refl
origin-to_evdev KeyCode.abort = inl refl
origin-to_evdev KeyCode.resume = inl refl
origin-to_evdev KeyCode.suspend = inl refl
origin-to_evdev KeyCode.again = inr refl
origin-to_evdev KeyCode.copy = inr refl
origin-to_evdev KeyCode.cut = inr refl
origin-to_evdev KeyCode.find = inr refl
origin-to_evdev KeyCode.open_key = inr refl
origin-to_evdev KeyCode.paste = inr refl
origin-to_evdev KeyCode.props = inr refl
origin-to_evdev KeyCode.select = inr refl
origin-to_evdev KeyCode.undo = inr refl
origin-to_evdev KeyCode.hiragana = inr refl
origin-to_evdev KeyCode.katakana = inr refl
origin-to_evdev KeyCode.f1 = inr refl
origin-to_evdev KeyCode.f2 = inr refl
origin-to_evdev KeyCode.f3 = inr refl
origin-to_evdev KeyCode.f4 = inr refl
origin-to_evdev KeyCode.f5 = inr refl
origin-to_evdev KeyCode.f6 = inr refl
origin-to_evdev KeyCode.f7 = inr refl
origin-to_evdev KeyCode.f8 = inr refl
origin-to_evdev KeyCode.f9 = inr refl
origin-to_evdev KeyCode.f10 = inr refl
origin-to_evdev KeyCode.f11 = inr refl
origin-to_evdev KeyCode.f12 = inr refl
origin-to_evdev KeyCode.f13 = inr refl
origin-to_evdev KeyCode.f14 = inr refl
origin-to_evdev KeyCode.f15 = inr refl
origin-to_evdev KeyCode.f16 = inr refl
origin-to_evdev KeyCode.f17 = inr refl
origin-to_evdev KeyCode.f18 = inr refl
origin-to_evdev KeyCode.f19 = inr refl
origin-to_evdev KeyCode.f20 = inr refl
origin-to_evdev KeyCode.f21 = inr refl
origin-to_evdev KeyCode.f22 = inr refl
origin-to_evdev KeyCode.f23 = inr refl
origin-to_evdev KeyCode.f24 = inr refl
origin-to_evdev KeyCode.f25 = inl refl
origin-to_evdev KeyCode.f26 = inl refl
origin-to_evdev KeyCode.f27 = inl refl
origin-to_evdev KeyCode.f28 = inl refl
origin-to_evdev KeyCode.f29 = inl refl
origin-to_evdev KeyCode.f30 = inl refl
origin-to_evdev KeyCode.f31 = inl refl
origin-to_evdev KeyCode.f32 = inl refl
origin-to_evdev KeyCode.f33 = inl refl
origin-to_evdev KeyCode.f34 = inl refl
origin-to_evdev KeyCode.f35 = inl refl

to_evdev-physical : (k : KeyCode) → to_evdev (physical k) ≡ to_evdev k
unfolding to_evdev
to_evdev-physical KeyCode.backquote = refl
to_evdev-physical _ = refl

origin_of : (k : KeyCode) (e : Ev) → to_evdev k ≡ some e → origin e ≡ physical k
origin_of k e h = elim (origin-to_evdev k) [
  | inl unmapped ↦ absurd (ground (arith, unmapped))
  | inr mapped ↦ cc (mapped, ap (Option.map origin) h)
]

-- A mapped key shares its evdev code with exactly the names of its physical key: no two keys are
-- confused, and the two keys that the list names twice act alike under both names.
pub to_evdev_shared_iff :
    (j k : KeyCode) (e : Ev)
    → to_evdev j ≡ some e
    → (to_evdev k ≡ some e) ↔ (physical j ≡ physical k)
to_evdev_shared_iff j k e h = (
  λ h'. sym (origin_of j e h) ∙ origin_of k e h',
  λ p. sym (to_evdev-physical k) ∙ ap to_evdev (sym p) ∙ to_evdev-physical j ∙ h,
)
