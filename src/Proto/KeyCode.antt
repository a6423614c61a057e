-- ===== src/Proto/KeyCode.antt =====
-- proto/src/keycode.rs: the physical key codes of the wire protocol. The enum is generated from
-- the list of `with_keycodes!`, and a wire value is a variant's position in that list.
pub mod RoundTrip
use vmscren_share.Prelude.{ℕ, ◌==◌, Option, List, [], ◌∷◌, find?}

-- `enum KeyCode`, in the order of `with_keycodes!` (`Open` is `open_key`: the word is reserved).
pub data KeyCode : Type 0 where
  backquote backslash bracket_left bracket_right comma digit0 digit1 digit2 digit3 digit4 : KeyCode
  digit5 digit6 digit7 digit8 digit9 equal intl_backslash intl_ro intl_yen key_a key_b key_c :
      KeyCode
  key_d key_e key_f key_g key_h key_i key_j key_k key_l key_m key_n key_o key_p key_q key_r :
      KeyCode
  key_s key_t key_u key_v key_w key_x key_y key_z minus period quote semicolon slash alt_left :
      KeyCode
  alt_right backspace caps_lock context_menu control_left control_right enter super_left : KeyCode
  super_right shift_left shift_right space tab convert kana_mode lang1 lang2 lang3 lang4 lang5 :
      KeyCode
  non_convert delete end help home insert page_down page_up arrow_down arrow_left arrow_right :
      KeyCode
  arrow_up num_lock numpad0 numpad1 numpad2 numpad3 numpad4 numpad5 numpad6 numpad7 numpad8 :
      KeyCode
  numpad9 numpad_add numpad_backspace numpad_clear numpad_clear_entry numpad_comma : KeyCode
  numpad_decimal numpad_divide numpad_enter numpad_equal numpad_hash numpad_memory_add : KeyCode
  numpad_memory_clear numpad_memory_recall numpad_memory_store numpad_memory_subtract : KeyCode
  numpad_multiply numpad_paren_left numpad_paren_right numpad_star numpad_subtract escape fn :
      KeyCode
  fn_lock print_screen scroll_lock pause browser_back browser_favorites browser_forward : KeyCode
  browser_home browser_refresh browser_search browser_stop eject launch_app1 launch_app2 : KeyCode
  launch_mail media_play_pause media_select media_stop media_track_next media_track_previous :
      KeyCode
  power sleep audio_volume_down audio_volume_mute audio_volume_up wake_up meta hyper turbo : KeyCode
  abort resume suspend again copy cut find open_key paste props select undo hiragana katakana :
      KeyCode
  f1 f2 f3 f4 f5 f6 f7 f8 f9 f10 f11 f12 f13 f14 f15 f16 f17 f18 f19 f20 f21 f22 f23 f24 f25 :
      KeyCode
  f26 f27 f28 f29 f30 f31 f32 f33 f34 f35 : KeyCode

-- `KeyCode::ALL`.
unfoldable pub all : List KeyCode
all =
    backquote ∷ backslash ∷ bracket_left ∷ bracket_right ∷ comma ∷ digit0 ∷ digit1 ∷ digit2 ∷ digit3
    ∷ digit4 ∷ digit5 ∷ digit6 ∷ digit7 ∷ digit8 ∷ digit9 ∷ equal ∷ intl_backslash ∷ intl_ro
    ∷ intl_yen ∷ key_a ∷ key_b ∷ key_c ∷ key_d ∷ key_e ∷ key_f ∷ key_g ∷ key_h ∷ key_i ∷ key_j
    ∷ key_k ∷ key_l ∷ key_m ∷ key_n ∷ key_o ∷ key_p ∷ key_q ∷ key_r ∷ key_s ∷ key_t ∷ key_u ∷ key_v
    ∷ key_w ∷ key_x ∷ key_y ∷ key_z ∷ minus ∷ period ∷ quote ∷ semicolon ∷ slash ∷ alt_left
    ∷ alt_right ∷ backspace ∷ caps_lock ∷ context_menu ∷ control_left ∷ control_right ∷ enter
    ∷ super_left ∷ super_right ∷ shift_left ∷ shift_right ∷ space ∷ tab ∷ convert ∷ kana_mode
    ∷ lang1 ∷ lang2 ∷ lang3 ∷ lang4 ∷ lang5 ∷ non_convert ∷ delete ∷ end ∷ help ∷ home ∷ insert
    ∷ page_down ∷ page_up ∷ arrow_down ∷ arrow_left ∷ arrow_right ∷ arrow_up ∷ num_lock ∷ numpad0
    ∷ numpad1 ∷ numpad2 ∷ numpad3 ∷ numpad4 ∷ numpad5 ∷ numpad6 ∷ numpad7 ∷ numpad8 ∷ numpad9
    ∷ numpad_add ∷ numpad_backspace ∷ numpad_clear ∷ numpad_clear_entry ∷ numpad_comma
    ∷ numpad_decimal ∷ numpad_divide ∷ numpad_enter ∷ numpad_equal ∷ numpad_hash ∷ numpad_memory_add
    ∷ numpad_memory_clear ∷ numpad_memory_recall ∷ numpad_memory_store ∷ numpad_memory_subtract
    ∷ numpad_multiply ∷ numpad_paren_left ∷ numpad_paren_right ∷ numpad_star ∷ numpad_subtract
    ∷ escape ∷ fn ∷ fn_lock ∷ print_screen ∷ scroll_lock ∷ pause ∷ browser_back ∷ browser_favorites
    ∷ browser_forward ∷ browser_home ∷ browser_refresh ∷ browser_search ∷ browser_stop ∷ eject
    ∷ launch_app1 ∷ launch_app2 ∷ launch_mail ∷ media_play_pause ∷ media_select ∷ media_stop
    ∷ media_track_next ∷ media_track_previous ∷ power ∷ sleep ∷ audio_volume_down
    ∷ audio_volume_mute ∷ audio_volume_up ∷ wake_up ∷ meta ∷ hyper ∷ turbo ∷ abort ∷ resume
    ∷ suspend ∷ again ∷ copy ∷ cut ∷ find ∷ open_key ∷ paste ∷ props ∷ select ∷ undo ∷ hiragana
    ∷ katakana ∷ f1 ∷ f2 ∷ f3 ∷ f4 ∷ f5 ∷ f6 ∷ f7 ∷ f8 ∷ f9 ∷ f10 ∷ f11 ∷ f12 ∷ f13 ∷ f14 ∷ f15
    ∷ f16 ∷ f17 ∷ f18 ∷ f19 ∷ f20 ∷ f21 ∷ f22 ∷ f23 ∷ f24 ∷ f25 ∷ f26 ∷ f27 ∷ f28 ∷ f29 ∷ f30 ∷ f31
    ∷ f32 ∷ f33 ∷ f34 ∷ f35 ∷ []

-- The discriminant, `self as u16`.
unfoldable pub as_u16 : KeyCode → ℕ
as_u16 backquote = 0
as_u16 backslash = 1
as_u16 bracket_left = 2
as_u16 bracket_right = 3
as_u16 comma = 4
as_u16 digit0 = 5
as_u16 digit1 = 6
as_u16 digit2 = 7
as_u16 digit3 = 8
as_u16 digit4 = 9
as_u16 digit5 = 10
as_u16 digit6 = 11
as_u16 digit7 = 12
as_u16 digit8 = 13
as_u16 digit9 = 14
as_u16 equal = 15
as_u16 intl_backslash = 16
as_u16 intl_ro = 17
as_u16 intl_yen = 18
as_u16 key_a = 19
as_u16 key_b = 20
as_u16 key_c = 21
as_u16 key_d = 22
as_u16 key_e = 23
as_u16 key_f = 24
as_u16 key_g = 25
as_u16 key_h = 26
as_u16 key_i = 27
as_u16 key_j = 28
as_u16 key_k = 29
as_u16 key_l = 30
as_u16 key_m = 31
as_u16 key_n = 32
as_u16 key_o = 33
as_u16 key_p = 34
as_u16 key_q = 35
as_u16 key_r = 36
as_u16 key_s = 37
as_u16 key_t = 38
as_u16 key_u = 39
as_u16 key_v = 40
as_u16 key_w = 41
as_u16 key_x = 42
as_u16 key_y = 43
as_u16 key_z = 44
as_u16 minus = 45
as_u16 period = 46
as_u16 quote = 47
as_u16 semicolon = 48
as_u16 slash = 49
as_u16 alt_left = 50
as_u16 alt_right = 51
as_u16 backspace = 52
as_u16 caps_lock = 53
as_u16 context_menu = 54
as_u16 control_left = 55
as_u16 control_right = 56
as_u16 enter = 57
as_u16 super_left = 58
as_u16 super_right = 59
as_u16 shift_left = 60
as_u16 shift_right = 61
as_u16 space = 62
as_u16 tab = 63
as_u16 convert = 64
as_u16 kana_mode = 65
as_u16 lang1 = 66
as_u16 lang2 = 67
as_u16 lang3 = 68
as_u16 lang4 = 69
as_u16 lang5 = 70
as_u16 non_convert = 71
as_u16 delete = 72
as_u16 end = 73
as_u16 help = 74
as_u16 home = 75
as_u16 insert = 76
as_u16 page_down = 77
as_u16 page_up = 78
as_u16 arrow_down = 79
as_u16 arrow_left = 80
as_u16 arrow_right = 81
as_u16 arrow_up = 82
as_u16 num_lock = 83
as_u16 numpad0 = 84
as_u16 numpad1 = 85
as_u16 numpad2 = 86
as_u16 numpad3 = 87
as_u16 numpad4 = 88
as_u16 numpad5 = 89
as_u16 numpad6 = 90
as_u16 numpad7 = 91
as_u16 numpad8 = 92
as_u16 numpad9 = 93
as_u16 numpad_add = 94
as_u16 numpad_backspace = 95
as_u16 numpad_clear = 96
as_u16 numpad_clear_entry = 97
as_u16 numpad_comma = 98
as_u16 numpad_decimal = 99
as_u16 numpad_divide = 100
as_u16 numpad_enter = 101
as_u16 numpad_equal = 102
as_u16 numpad_hash = 103
as_u16 numpad_memory_add = 104
as_u16 numpad_memory_clear = 105
as_u16 numpad_memory_recall = 106
as_u16 numpad_memory_store = 107
as_u16 numpad_memory_subtract = 108
as_u16 numpad_multiply = 109
as_u16 numpad_paren_left = 110
as_u16 numpad_paren_right = 111
as_u16 numpad_star = 112
as_u16 numpad_subtract = 113
as_u16 escape = 114
as_u16 fn = 115
as_u16 fn_lock = 116
as_u16 print_screen = 117
as_u16 scroll_lock = 118
as_u16 pause = 119
as_u16 browser_back = 120
as_u16 browser_favorites = 121
as_u16 browser_forward = 122
as_u16 browser_home = 123
as_u16 browser_refresh = 124
as_u16 browser_search = 125
as_u16 browser_stop = 126
as_u16 eject = 127
as_u16 launch_app1 = 128
as_u16 launch_app2 = 129
as_u16 launch_mail = 130
as_u16 media_play_pause = 131
as_u16 media_select = 132
as_u16 media_stop = 133
as_u16 media_track_next = 134
as_u16 media_track_previous = 135
as_u16 power = 136
as_u16 sleep = 137
as_u16 audio_volume_down = 138
as_u16 audio_volume_mute = 139
as_u16 audio_volume_up = 140
as_u16 wake_up = 141
as_u16 meta = 142
as_u16 hyper = 143
as_u16 turbo = 144
as_u16 abort = 145
as_u16 resume = 146
as_u16 suspend = 147
as_u16 again = 148
as_u16 copy = 149
as_u16 cut = 150
as_u16 find = 151
as_u16 open_key = 152
as_u16 paste = 153
as_u16 props = 154
as_u16 select = 155
as_u16 undo = 156
as_u16 hiragana = 157
as_u16 katakana = 158
as_u16 f1 = 159
as_u16 f2 = 160
as_u16 f3 = 161
as_u16 f4 = 162
as_u16 f5 = 163
as_u16 f6 = 164
as_u16 f7 = 165
as_u16 f8 = 166
as_u16 f9 = 167
as_u16 f10 = 168
as_u16 f11 = 169
as_u16 f12 = 170
as_u16 f13 = 171
as_u16 f14 = 172
as_u16 f15 = 173
as_u16 f16 = 174
as_u16 f17 = 175
as_u16 f18 = 176
as_u16 f19 = 177
as_u16 f20 = 178
as_u16 f21 = 179
as_u16 f22 = 180
as_u16 f23 = 181
as_u16 f24 = 182
as_u16 f25 = 183
as_u16 f26 = 184
as_u16 f27 = 185
as_u16 f28 = 186
as_u16 f29 = 187
as_u16 f30 = 188
as_u16 f31 = 189
as_u16 f32 = 190
as_u16 f33 = 191
as_u16 f34 = 192
as_u16 f35 = 193

-- The guards of the generated `match` are tried in the order of the list.
unfoldable pub from_u16 : ℕ → Option KeyCode
unfolding all as_u16
from_u16 v = find? (λ k. as_u16 k == v) all
