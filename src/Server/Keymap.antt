-- ===== src/Server/Keymap.antt =====
-- server/src/input/keymap.rs: protocol key codes and mouse buttons to Linux evdev codes.
pub mod Injective
use vmscren_share.Prelude.{Option, none, some}
use vmscren_share.Proto.KeyCode.{KeyCode}
use vmscren_share.Proto.MouseButton.{MouseButton, left, right, middle, back, forward}

-- The constants `KEY_*` and `BTN_*` of the evdev crate that the source names. Their numbers are a
-- parameter of whatever needs them.
pub data Ev : Type 0 where
  key_grave key_backslash key_leftbrace key_rightbrace key_comma key_0 key_1 key_2 : Ev
  key_3 key_4 key_5 key_6 key_7 key_8 key_9 key_equal key_102nd key_ro key_yen : Ev
  key_a key_b key_c key_d key_e key_f key_g key_h key_i key_j key_k key_l key_m : Ev
  key_n key_o key_p key_q key_r key_s key_t key_u key_v key_w key_x key_y key_z : Ev
  key_minus key_dot key_apostrophe key_semicolon key_slash key_leftalt key_rightalt : Ev
  key_backspace key_capslock key_compose key_leftctrl key_rightctrl key_enter : Ev
  key_leftmeta key_rightmeta key_leftshift key_rightshift key_space key_tab : Ev
  key_henkan key_katakanahiragana key_hangeul key_hanja key_katakana key_hiragana : Ev
  key_zenkakuhankaku key_muhenkan key_delete key_end key_help key_home key_insert : Ev
  key_pagedown key_pageup key_down key_left key_right key_up key_numlock key_kp0 : Ev
  key_kp1 key_kp2 key_kp3 key_kp4 key_kp5 key_kp6 key_kp7 key_kp8 key_kp9 : Ev
  key_kpplus key_kpcomma key_kpdot key_kpslash key_kpenter key_kpequal : Ev
  key_kpasterisk key_kpleftparen key_kprightparen key_kpminus key_esc key_fn : Ev
  key_sysrq key_scrolllock key_pause key_back key_bookmarks key_forward : Ev
  key_homepage key_refresh key_search key_stop key_ejectcd key_computer key_calc : Ev
  key_mail key_playpause key_media key_stopcd key_nextsong key_previoussong : Ev
  key_power key_sleep key_volumedown key_mute key_volumeup key_wakeup key_again : Ev
  key_copy key_cut key_find key_open key_paste key_props key_select key_undo key_f1 : Ev
  key_f2 key_f3 key_f4 key_f5 key_f6 key_f7 key_f8 key_f9 key_f10 key_f11 key_f12 : Ev
  key_f13 key_f14 key_f15 key_f16 key_f17 key_f18 key_f19 key_f20 key_f21 key_f22 : Ev
  key_f23 key_f24 btn_left btn_right btn_middle btn_side btn_extra : Ev

-- The arms of the `match`; the last ones are its list of keys with no evdev equivalent.
unfoldable pub to_evdev : KeyCode → Option Ev
to_evdev KeyCode.backquote = some Ev.key_grave
to_evdev KeyCode.backslash = some Ev.key_backslash
to_evdev KeyCode.bracket_left = some Ev.key_leftbrace
to_evdev KeyCode.bracket_right = some Ev.key_rightbrace
to_evdev KeyCode.comma = some Ev.key_comma
to_evdev KeyCode.digit0 = some Ev.key_0
to_evdev KeyCode.digit1 = some Ev.key_1
to_evdev KeyCode.digit2 = some Ev.key_2
to_evdev KeyCode.digit3 = some Ev.key_3
to_evdev KeyCode.digit4 = some Ev.key_4
to_evdev KeyCode.digit5 = some Ev.key_5
to_evdev KeyCode.digit6 = some Ev.key_6
to_evdev KeyCode.digit7 = some Ev.key_7
to_evdev KeyCode.digit8 = some Ev.key_8
to_evdev KeyCode.digit9 = some Ev.key_9
to_evdev KeyCode.equal = some Ev.key_equal
to_evdev KeyCode.intl_backslash = some Ev.key_102nd
to_evdev KeyCode.intl_ro = some Ev.key_ro
to_evdev KeyCode.intl_yen = some Ev.key_yen
to_evdev KeyCode.key_a = some Ev.key_a
to_evdev KeyCode.key_b = some Ev.key_b
to_evdev KeyCode.key_c = some Ev.key_c
to_evdev KeyCode.key_d = some Ev.key_d
to_evdev KeyCode.key_e = some Ev.key_e
to_evdev KeyCode.key_f = some Ev.key_f
to_evdev KeyCode.key_g = some Ev.key_g
to_evdev KeyCode.key_h = some Ev.key_h
to_evdev KeyCode.key_i = some Ev.key_i
to_evdev KeyCode.key_j = some Ev.key_j
to_evdev KeyCode.key_k = some Ev.key_k
to_evdev KeyCode.key_l = some Ev.key_l
to_evdev KeyCode.key_m = some Ev.key_m
to_evdev KeyCode.key_n = some Ev.key_n
to_evdev KeyCode.key_o = some Ev.key_o
to_evdev KeyCode.key_p = some Ev.key_p
to_evdev KeyCode.key_q = some Ev.key_q
to_evdev KeyCode.key_r = some Ev.key_r
to_evdev KeyCode.key_s = some Ev.key_s
to_evdev KeyCode.key_t = some Ev.key_t
to_evdev KeyCode.key_u = some Ev.key_u
to_evdev KeyCode.key_v = some Ev.key_v
to_evdev KeyCode.key_w = some Ev.key_w
to_evdev KeyCode.key_x = some Ev.key_x
to_evdev KeyCode.key_y = some Ev.key_y
to_evdev KeyCode.key_z = some Ev.key_z
to_evdev KeyCode.minus = some Ev.key_minus
to_evdev KeyCode.period = some Ev.key_dot
to_evdev KeyCode.quote = some Ev.key_apostrophe
to_evdev KeyCode.semicolon = some Ev.key_semicolon
to_evdev KeyCode.slash = some Ev.key_slash
to_evdev KeyCode.alt_left = some Ev.key_leftalt
to_evdev KeyCode.alt_right = some Ev.key_rightalt
to_evdev KeyCode.backspace = some Ev.key_backspace
to_evdev KeyCode.caps_lock = some Ev.key_capslock
to_evdev KeyCode.context_menu = some Ev.key_compose
to_evdev KeyCode.control_left = some Ev.key_leftctrl
to_evdev KeyCode.control_right = some Ev.key_rightctrl
to_evdev KeyCode.enter = some Ev.key_enter
to_evdev KeyCode.super_left = some Ev.key_leftmeta
to_evdev KeyCode.super_right = some Ev.key_rightmeta
to_evdev KeyCode.shift_left = some Ev.key_leftshift
to_evdev KeyCode.shift_right = some Ev.key_rightshift
to_evdev KeyCode.space = some Ev.key_space
to_evdev KeyCode.tab = some Ev.key_tab
to_evdev KeyCode.convert = some Ev.key_henkan
to_evdev KeyCode.kana_mode = some Ev.key_katakanahiragana
to_evdev KeyCode.lang1 = some Ev.key_hangeul
to_evdev KeyCode.lang2 = some Ev.key_hanja
to_evdev KeyCode.lang3 = some Ev.key_katakana
to_evdev KeyCode.lang4 = some Ev.key_hiragana
to_evdev KeyCode.lang5 = some Ev.key_zenkakuhankaku
to_evdev KeyCode.non_convert = some Ev.key_muhenkan
to_evdev KeyCode.delete = some Ev.key_delete
to_evdev KeyCode.end = some Ev.key_end
to_evdev KeyCode.help = some Ev.key_help
to_evdev KeyCode.home = some Ev.key_home
to_evdev KeyCode.insert = some Ev.key_insert
to_evdev KeyCode.page_down = some Ev.key_pagedown
to_evdev KeyCode.page_up = some Ev.key_pageup
to_evdev KeyCode.arrow_down = some Ev.key_down
to_evdev KeyCode.arrow_left = some Ev.key_left
to_evdev KeyCode.arrow_right = some Ev.key_right
to_evdev KeyCode.arrow_up = some Ev.key_up
to_evdev KeyCode.num_lock = some Ev.key_numlock
to_evdev KeyCode.numpad0 = some Ev.key_kp0
to_evdev KeyCode.numpad1 = some Ev.key_kp1
to_evdev KeyCode.numpad2 = some Ev.key_kp2
to_evdev KeyCode.numpad3 = some Ev.key_kp3
to_evdev KeyCode.numpad4 = some Ev.key_kp4
to_evdev KeyCode.numpad5 = some Ev.key_kp5
to_evdev KeyCode.numpad6 = some Ev.key_kp6
to_evdev KeyCode.numpad7 = some Ev.key_kp7
to_evdev KeyCode.numpad8 = some Ev.key_kp8
to_evdev KeyCode.numpad9 = some Ev.key_kp9
to_evdev KeyCode.numpad_add = some Ev.key_kpplus
to_evdev KeyCode.numpad_comma = some Ev.key_kpcomma
to_evdev KeyCode.numpad_decimal = some Ev.key_kpdot
to_evdev KeyCode.numpad_divide = some Ev.key_kpslash
to_evdev KeyCode.numpad_enter = some Ev.key_kpenter
to_evdev KeyCode.numpad_equal = some Ev.key_kpequal
to_evdev KeyCode.numpad_multiply = some Ev.key_kpasterisk
to_evdev KeyCode.numpad_paren_left = some Ev.key_kpleftparen
to_evdev KeyCode.numpad_paren_right = some Ev.key_kprightparen
to_evdev KeyCode.numpad_subtract = some Ev.key_kpminus
to_evdev KeyCode.escape = some Ev.key_esc
to_evdev KeyCode.fn = some Ev.key_fn
to_evdev KeyCode.print_screen = some Ev.key_sysrq
to_evdev KeyCode.scroll_lock = some Ev.key_scrolllock
to_evdev KeyCode.pause = some Ev.key_pause
to_evdev KeyCode.browser_back = some Ev.key_back
to_evdev KeyCode.browser_favorites = some Ev.key_bookmarks
to_evdev KeyCode.browser_forward = some Ev.key_forward
to_evdev KeyCode.browser_home = some Ev.key_homepage
to_evdev KeyCode.browser_refresh = some Ev.key_refresh
to_evdev KeyCode.browser_search = some Ev.key_search
to_evdev KeyCode.browser_stop = some Ev.key_stop
to_evdev KeyCode.eject = some Ev.key_ejectcd
to_evdev KeyCode.launch_app1 = some Ev.key_computer
to_evdev KeyCode.launch_app2 = some Ev.key_calc
to_evdev KeyCode.launch_mail = some Ev.key_mail
to_evdev KeyCode.media_play_pause = some Ev.key_playpause
to_evdev KeyCode.media_select = some Ev.key_media
to_evdev KeyCode.media_stop = some Ev.key_stopcd
to_evdev KeyCode.media_track_next = some Ev.key_nextsong
to_evdev KeyCode.media_track_previous = some Ev.key_previoussong
to_evdev KeyCode.power = some Ev.key_power
to_evdev KeyCode.sleep = some Ev.key_sleep
to_evdev KeyCode.audio_volume_down = some Ev.key_volumedown
to_evdev KeyCode.audio_volume_mute = some Ev.key_mute
to_evdev KeyCode.audio_volume_up = some Ev.key_volumeup
to_evdev KeyCode.wake_up = some Ev.key_wakeup
to_evdev KeyCode.again = some Ev.key_again
to_evdev KeyCode.copy = some Ev.key_copy
to_evdev KeyCode.cut = some Ev.key_cut
to_evdev KeyCode.find = some Ev.key_find
to_evdev KeyCode.open_key = some Ev.key_open
to_evdev KeyCode.paste = some Ev.key_paste
to_evdev KeyCode.props = some Ev.key_props
to_evdev KeyCode.select = some Ev.key_select
to_evdev KeyCode.undo = some Ev.key_undo
to_evdev KeyCode.hiragana = some Ev.key_hiragana
to_evdev KeyCode.katakana = some Ev.key_katakana
to_evdev KeyCode.f1 = some Ev.key_f1
to_evdev KeyCode.f2 = some Ev.key_f2
to_evdev KeyCode.f3 = some Ev.key_f3
to_evdev KeyCode.f4 = some Ev.key_f4
to_evdev KeyCode.f5 = some Ev.key_f5
to_evdev KeyCode.f6 = some Ev.key_f6
to_evdev KeyCode.f7 = some Ev.key_f7
to_evdev KeyCode.f8 = some Ev.key_f8
to_evdev KeyCode.f9 = some Ev.key_f9
to_evdev KeyCode.f10 = some Ev.key_f10
to_evdev KeyCode.f11 = some Ev.key_f11
to_evdev KeyCode.f12 = some Ev.key_f12
to_evdev KeyCode.f13 = some Ev.key_f13
to_evdev KeyCode.f14 = some Ev.key_f14
to_evdev KeyCode.f15 = some Ev.key_f15
to_evdev KeyCode.f16 = some Ev.key_f16
to_evdev KeyCode.f17 = some Ev.key_f17
to_evdev KeyCode.f18 = some Ev.key_f18
to_evdev KeyCode.f19 = some Ev.key_f19
to_evdev KeyCode.f20 = some Ev.key_f20
to_evdev KeyCode.f21 = some Ev.key_f21
to_evdev KeyCode.f22 = some Ev.key_f22
to_evdev KeyCode.f23 = some Ev.key_f23
to_evdev KeyCode.f24 = some Ev.key_f24
to_evdev KeyCode.numpad_backspace = none
to_evdev KeyCode.numpad_clear = none
to_evdev KeyCode.numpad_clear_entry = none
to_evdev KeyCode.numpad_hash = none
to_evdev KeyCode.numpad_memory_add = none
to_evdev KeyCode.numpad_memory_clear = none
to_evdev KeyCode.numpad_memory_recall = none
to_evdev KeyCode.numpad_memory_store = none
to_evdev KeyCode.numpad_memory_subtract = none
to_evdev KeyCode.numpad_star = none
to_evdev KeyCode.fn_lock = none
to_evdev KeyCode.meta = none
to_evdev KeyCode.hyper = none
to_evdev KeyCode.turbo = none
to_evdev KeyCode.abort = none
to_evdev KeyCode.resume = none
to_evdev KeyCode.suspend = none
to_evdev KeyCode.f25 = none
to_evdev KeyCode.f26 = none
to_evdev KeyCode.f27 = none
to_evdev KeyCode.f28 = none
to_evdev KeyCode.f29 = none
to_evdev KeyCode.f30 = none
to_evdev KeyCode.f31 = none
to_evdev KeyCode.f32 = none
to_evdev KeyCode.f33 = none
to_evdev KeyCode.f34 = none
to_evdev KeyCode.f35 = none

unfoldable pub button_to_evdev : MouseButton → Ev
button_to_evdev left = Ev.btn_left
button_to_evdev right = Ev.btn_right
button_to_evdev middle = Ev.btn_middle
button_to_evdev back = Ev.btn_side
button_to_evdev forward = Ev.btn_extra
