-- ===== src/Prelude/Unicode.antt =====
-- The simple lower cases and case foldings of Unicode 15 beyond ASCII, as `unicode.ToLower` and
-- `unicode.SimpleFold` of Go's standard library have them.
use neon_selfhost.Prelude.Tests.{if◌then◌else◌, leb, ◌==◌}
use Prim.Native.Nat.{ℕ, ◌+◌, ◌-◌, ◌%◌}
use mathlib.Core.Bool.{Bool, ◌&&◌}
use mathlib.Core.List.{List, [], ◌∷◌}

-- The code points from the first to the last, in steps, have their lower case at a distance.
pub data CaseRun : Type 0 where
  up : ℕ → ℕ → ℕ → ℕ → CaseRun
  down : ℕ → ℕ → ℕ → ℕ → CaseRun

abbrev pub in_run : ℕ → ℕ → ℕ → ℕ → Bool
in_run first last step c = leb first c && leb c last && (c - first) % step == 0

abbrev pub lower_by : CaseRun → ℕ → ℕ → ℕ
lower_by (up first last step n) c other = if in_run first last step c then c + n else other
lower_by (down first last step n) c other = if in_run first last step c then c - n else other

unfoldable pub lower_in : List CaseRun → ℕ → ℕ
lower_in [] c = c
lower_in (r ∷ rs) c = let rest = lower_in rs c in lower_by r c rest

abbrev pub case_runs : List CaseRun
case_runs =
    up 0xc0 0xd6 1 32
    ∷ up 0xd8 0xde 1 32
    ∷ up 0x100 0x12e 2 1
    ∷ up 0x132 0x136 2 1
    ∷ up 0x139 0x147 2 1
    ∷ up 0x14a 0x176 2 1
    ∷ down 0x178 0x178 1 121
    ∷ up 0x179 0x17d 2 1
    ∷ up 0x181 0x181 1 210
    ∷ up 0x182 0x184 2 1
    ∷ up 0x186 0x186 1 206
    ∷ up 0x187 0x187 1 1
    ∷ up 0x189 0x18a 1 205
    ∷ up 0x18b 0x18b 1 1
    ∷ up 0x18e 0x18e 1 79
    ∷ up 0x18f 0x18f 1 202
    ∷ up 0x190 0x190 1 203
    ∷ up 0x191 0x191 1 1
    ∷ up 0x193 0x193 1 205
    ∷ up 0x194 0x194 1 207
    ∷ up 0x196 0x196 1 211
    ∷ up 0x197 0x197 1 209
    ∷ up 0x198 0x198 1 1
    ∷ up 0x19c 0x19c 1 211
    ∷ up 0x19d 0x19d 1 213
    ∷ up 0x19f 0x19f 1 214
    ∷ up 0x1a0 0x1a4 2 1
    ∷ up 0x1a6 0x1a6 1 218
    ∷ up 0x1a7 0x1a7 1 1
    ∷ up 0x1a9 0x1a9 1 218
    ∷ up 0x1ac 0x1ac 1 1
    ∷ up 0x1ae 0x1ae 1 218
    ∷ up 0x1af 0x1af 1 1
    ∷ up 0x1b1 0x1b2 1 217
    ∷ up 0x1b3 0x1b5 2 1
    ∷ up 0x1b7 0x1b7 1 219
    ∷ up 0x1b8 0x1b8 1 1
    ∷ up 0x1bc 0x1bc 1 1
    ∷ up 0x1c4 0x1c4 1 2
    ∷ up 0x1c5 0x1c5 1 1
    ∷ up 0x1c7 0x1c7 1 2
    ∷ up 0x1c8 0x1c8 1 1
    ∷ up 0x1ca 0x1ca 1 2
    ∷ up 0x1cb 0x1db 2 1
    ∷ up 0x1de 0x1ee 2 1
    ∷ up 0x1f1 0x1f1 1 2
    ∷ up 0x1f2 0x1f4 2 1
    ∷ down 0x1f6 0x1f6 1 97
    ∷ down 0x1f7 0x1f7 1 56
    ∷ up 0x1f8 0x21e 2 1
    ∷ down 0x220 0x220 1 130
    ∷ up 0x222 0x232 2 1
    ∷ up 0x23a 0x23a 1 10795
    ∷ up 0x23b 0x23b 1 1
    ∷ down 0x23d 0x23d 1 163
    ∷ up 0x23e 0x23e 1 10792
    ∷ up 0x241 0x241 1 1
    ∷ down 0x243 0x243 1 195
    ∷ up 0x244 0x244 1 69
    ∷ up 0x245 0x245 1 71
    ∷ up 0x246 0x24e 2 1
    ∷ up 0x370 0x372 2 1
    ∷ up 0x376 0x376 1 1
    ∷ up 0x37f 0x37f 1 116
    ∷ up 0x386 0x386 1 38
    ∷ up 0x388 0x38a 1 37
    ∷ up 0x38c 0x38c 1 64
    ∷ up 0x38e 0x38f 1 63
    ∷ up 0x391 0x3a1 1 32
    ∷ up 0x3a3 0x3ab 1 32
    ∷ up 0x3cf 0x3cf 1 8
    ∷ up 0x3d8 0x3ee 2 1
    ∷ down 0x3f4 0x3f4 1 60
    ∷ up 0x3f7 0x3f7 1 1
    ∷ down 0x3f9 0x3f9 1 7
    ∷ up 0x3fa 0x3fa 1 1
    ∷ down 0x3fd 0x3ff 1 130
    ∷ up 0x400 0x40f 1 80
    ∷ up 0x410 0x42f 1 32
    ∷ up 0x460 0x480 2 1
    ∷ up 0x48a 0x4be 2 1
    ∷ up 0x4c0 0x4c0 1 15
    ∷ up 0x4c1 0x4cd 2 1
    ∷ up 0x4d0 0x52e 2 1
    ∷ up 0x531 0x556 1 48
    ∷ up 0x10a0 0x10c5 1 7264
    ∷ up 0x10c7 0x10c7 1 7264
    ∷ up 0x10cd 0x10cd 1 7264
    ∷ up 0x13a0 0x13ef 1 38864
    ∷ up 0x13f0 0x13f5 1 8
    ∷ down 0x1c90 0x1cba 1 3008
    ∷ down 0x1cbd 0x1cbf 1 3008
    ∷ up 0x1e00 0x1e94 2 1
    ∷ down 0x1e9e 0x1e9e 1 7615
    ∷ up 0x1ea0 0x1efe 2 1
    ∷ down 0x1f08 0x1f0f 1 8
    ∷ down 0x1f18 0x1f1d 1 8
    ∷ down 0x1f28 0x1f2f 1 8
    ∷ down 0x1f38 0x1f3f 1 8
    ∷ down 0x1f48 0x1f4d 1 8
    ∷ down 0x1f59 0x1f5f 2 8
    ∷ down 0x1f68 0x1f6f 1 8
    ∷ down 0x1f88 0x1f8f 1 8
    ∷ down 0x1f98 0x1f9f 1 8
    ∷ down 0x1fa8 0x1faf 1 8
    ∷ down 0x1fb8 0x1fb9 1 8
    ∷ down 0x1fba 0x1fbb 1 74
    ∷ down 0x1fbc 0x1fbc 1 9
    ∷ down 0x1fc8 0x1fcb 1 86
    ∷ down 0x1fcc 0x1fcc 1 9
    ∷ down 0x1fd8 0x1fd9 1 8
    ∷ down 0x1fda 0x1fdb 1 100
    ∷ down 0x1fe8 0x1fe9 1 8
    ∷ down 0x1fea 0x1feb 1 112
    ∷ down 0x1fec 0x1fec 1 7
    ∷ down 0x1ff8 0x1ff9 1 128
    ∷ down 0x1ffa 0x1ffb 1 126
    ∷ down 0x1ffc 0x1ffc 1 9
    ∷ down 0x2126 0x2126 1 7517
    ∷ down 0x212a 0x212a 1 8383
    ∷ down 0x212b 0x212b 1 8262
    ∷ up 0x2132 0x2132 1 28
    ∷ up 0x2160 0x216f 1 16
    ∷ up 0x2183 0x2183 1 1
    ∷ up 0x24b6 0x24cf 1 26
    ∷ up 0x2c00 0x2c2f 1 48
    ∷ up 0x2c60 0x2c60 1 1
    ∷ down 0x2c62 0x2c62 1 10743
    ∷ down 0x2c63 0x2c63 1 3814
    ∷ down 0x2c64 0x2c64 1 10727
    ∷ up 0x2c67 0x2c6b 2 1
    ∷ down 0x2c6d 0x2c6d 1 10780
    ∷ down 0x2c6e 0x2c6e 1 10749
    ∷ down 0x2c6f 0x2c6f 1 10783
    ∷ down 0x2c70 0x2c70 1 10782
    ∷ up 0x2c72 0x2c72 1 1
    ∷ up 0x2c75 0x2c75 1 1
    ∷ down 0x2c7e 0x2c7f 1 10815
    ∷ up 0x2c80 0x2ce2 2 1
    ∷ up 0x2ceb 0x2ced 2 1
    ∷ up 0x2cf2 0x2cf2 1 1
    ∷ up 0xa640 0xa66c 2 1
    ∷ up 0xa680 0xa69a 2 1
    ∷ up 0xa722 0xa72e 2 1
    ∷ up 0xa732 0xa76e 2 1
    ∷ up 0xa779 0xa77b 2 1
    ∷ down 0xa77d 0xa77d 1 35332
    ∷ up 0xa77e 0xa786 2 1
    ∷ up 0xa78b 0xa78b 1 1
    ∷ down 0xa78d 0xa78d 1 42280
    ∷ up 0xa790 0xa792 2 1
    ∷ up 0xa796 0xa7a8 2 1
    ∷ down 0xa7aa 0xa7aa 1 42308
    ∷ down 0xa7ab 0xa7ab 1 42319
    ∷ down 0xa7ac 0xa7ac 1 42315
    ∷ down 0xa7ad 0xa7ad 1 42305
    ∷ down 0xa7ae 0xa7ae 1 42308
    ∷ down 0xa7b0 0xa7b0 1 42258
    ∷ down 0xa7b1 0xa7b1 1 42282
    ∷ down 0xa7b2 0xa7b2 1 42261
    ∷ up 0xa7b3 0xa7b3 1 928
    ∷ up 0xa7b4 0xa7c2 2 1
    ∷ down 0xa7c4 0xa7c4 1 48
    ∷ down 0xa7c5 0xa7c5 1 42307
    ∷ down 0xa7c6 0xa7c6 1 35384
    ∷ up 0xa7c7 0xa7c9 2 1
    ∷ up 0xa7d0 0xa7d0 1 1
    ∷ up 0xa7d6 0xa7d8 2 1
    ∷ up 0xa7f5 0xa7f5 1 1
    ∷ up 0xff21 0xff3a 1 32
    ∷ up 0x10400 0x10427 1 40
    ∷ up 0x104b0 0x104d3 1 40
    ∷ up 0x10570 0x1057a 1 39
    ∷ up 0x1057c 0x1058a 1 39
    ∷ up 0x1058c 0x10592 1 39
    ∷ up 0x10594 0x10595 1 39
    ∷ up 0x10c80 0x10cb2 1 64
    ∷ up 0x118a0 0x118bf 1 32
    ∷ up 0x16e40 0x16e5f 1 32
    ∷ up 0x1e900 0x1e921 1 34
    ∷ []

-- the lower case of a code point of which the lower case is not in ASCII, or the Kelvin sign
unfoldable pub wide_lower : ℕ → ℕ
unfolding lower_in
wide_lower c = lower_in case_runs c

unfoldable pub merged_in : List (ℕ × ℕ) → ℕ → ℕ
merged_in [] c = c
merged_in ((from, to) ∷ rs) c = let rest = merged_in rs c in if c == from then to else rest

-- the lower cases that one more folding puts together
abbrev pub merges : List (ℕ × ℕ)
merges =
    (0x17f, 0x73)
    ∷ (0x3bc, 0xb5)
    ∷ (0x3b9, 0x345)
    ∷ (0x1fbe, 0x345)
    ∷ (0x3d0, 0x3b2)
    ∷ (0x3f5, 0x3b5)
    ∷ (0x3d1, 0x3b8)
    ∷ (0x3f0, 0x3ba)
    ∷ (0x3d6, 0x3c0)
    ∷ (0x3f1, 0x3c1)
    ∷ (0x3c3, 0x3c2)
    ∷ (0x3d5, 0x3c6)
    ∷ (0x1c80, 0x432)
    ∷ (0x1c81, 0x434)
    ∷ (0x1c82, 0x43e)
    ∷ (0x1c83, 0x441)
    ∷ (0x1c84, 0x442)
    ∷ (0x1c85, 0x442)
    ∷ (0x1c86, 0x44a)
    ∷ (0x1c87, 0x463)
    ∷ (0xa64b, 0x1c88)
    ∷ (0x1e9b, 0x1e61)
    ∷ []

unfoldable pub merged : ℕ → ℕ
unfolding merged_in
merged c = merged_in merges c
