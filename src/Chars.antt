-- ===== src/Chars.antt =====
-- The two tables of mohpc-lib/Utility/Misc/MSG/MSG.cpp by which a string is scrambled character by
-- character (WriteStringWithMapping) and read back.
mod Inverse
mod Tests
use mohpc.Base.{ℕ, List, [], ◌∷◌, get_or, ◌==◌, if◌then◌else◌, Option, none, some}

abbrev pub char_byte_mapping : List ℕ
char_byte_mapping =
    254 ∷ 120 ∷ 89 ∷ 13 ∷ 27 ∷ 73 ∷ 103 ∷ 78 ∷ 74 ∷ 102 ∷ 21 ∷ 117 ∷ 76 ∷ 86 ∷ 238 ∷ 96 ∷ 88 ∷ 62
    ∷ 59 ∷ 60 ∷ 40 ∷ 84 ∷ 52 ∷ 119 ∷ 251 ∷ 51 ∷ 75 ∷ 121 ∷ 192 ∷ 85 ∷ 44 ∷ 54 ∷ 114 ∷ 87 ∷ 25 ∷ 53
    ∷ 35 ∷ 224 ∷ 67 ∷ 31 ∷ 82 ∷ 41 ∷ 45 ∷ 99 ∷ 233 ∷ 112 ∷ 255 ∷ 11 ∷ 46 ∷ 115 ∷ 8 ∷ 32 ∷ 19 ∷ 100
    ∷ 110 ∷ 95 ∷ 116 ∷ 48 ∷ 58 ∷ 107 ∷ 70 ∷ 91 ∷ 104 ∷ 81 ∷ 118 ∷ 109 ∷ 36 ∷ 24 ∷ 17 ∷ 39 ∷ 43 ∷ 65
    ∷ 49 ∷ 83 ∷ 56 ∷ 57 ∷ 33 ∷ 64 ∷ 80 ∷ 28 ∷ 184 ∷ 160 ∷ 18 ∷ 105 ∷ 42 ∷ 20 ∷ 194 ∷ 38 ∷ 29 ∷ 26
    ∷ 61 ∷ 50 ∷ 9 ∷ 90 ∷ 37 ∷ 128 ∷ 79 ∷ 2 ∷ 108 ∷ 34 ∷ 4 ∷ 0 ∷ 47 ∷ 12 ∷ 101 ∷ 10 ∷ 92 ∷ 15 ∷ 5 ∷ 7
    ∷ 22 ∷ 55 ∷ 23 ∷ 14 ∷ 3 ∷ 1 ∷ 66 ∷ 16 ∷ 63 ∷ 30 ∷ 6 ∷ 97 ∷ 111 ∷ 248 ∷ 72 ∷ 197 ∷ 191 ∷ 122
    ∷ 176 ∷ 245 ∷ 250 ∷ 68 ∷ 195 ∷ 77 ∷ 232 ∷ 106 ∷ 228 ∷ 93 ∷ 240 ∷ 98 ∷ 208 ∷ 69 ∷ 164 ∷ 144 ∷ 186
    ∷ 222 ∷ 94 ∷ 246 ∷ 148 ∷ 170 ∷ 244 ∷ 190 ∷ 205 ∷ 234 ∷ 252 ∷ 202 ∷ 230 ∷ 239 ∷ 174 ∷ 225 ∷ 226
    ∷ 209 ∷ 236 ∷ 216 ∷ 237 ∷ 151 ∷ 149 ∷ 231 ∷ 129 ∷ 188 ∷ 200 ∷ 172 ∷ 204 ∷ 154 ∷ 168 ∷ 71 ∷ 133
    ∷ 217 ∷ 196 ∷ 223 ∷ 134 ∷ 253 ∷ 173 ∷ 177 ∷ 219 ∷ 235 ∷ 214 ∷ 182 ∷ 132 ∷ 227 ∷ 183 ∷ 175 ∷ 137
    ∷ 152 ∷ 158 ∷ 221 ∷ 243 ∷ 150 ∷ 210 ∷ 136 ∷ 167 ∷ 211 ∷ 179 ∷ 193 ∷ 218 ∷ 124 ∷ 140 ∷ 178 ∷ 213
    ∷ 249 ∷ 185 ∷ 113 ∷ 127 ∷ 220 ∷ 180 ∷ 145 ∷ 138 ∷ 198 ∷ 123 ∷ 162 ∷ 189 ∷ 203 ∷ 166 ∷ 126 ∷ 159
    ∷ 156 ∷ 212 ∷ 207 ∷ 146 ∷ 181 ∷ 247 ∷ 139 ∷ 142 ∷ 169 ∷ 242 ∷ 241 ∷ 171 ∷ 187 ∷ 153 ∷ 135 ∷ 201
    ∷ 155 ∷ 161 ∷ 125 ∷ 163 ∷ 130 ∷ 229 ∷ 206 ∷ 165 ∷ 157 ∷ 141 ∷ 147 ∷ 143 ∷ 199 ∷ 215 ∷ 131 ∷ []

abbrev pub byte_char_mapping : List ℕ
byte_char_mapping =
    101 ∷ 115 ∷ 97 ∷ 114 ∷ 100 ∷ 108 ∷ 120 ∷ 109 ∷ 50 ∷ 92 ∷ 105 ∷ 47 ∷ 103 ∷ 3 ∷ 113 ∷ 107 ∷ 117
    ∷ 68 ∷ 82 ∷ 52 ∷ 85 ∷ 10 ∷ 110 ∷ 112 ∷ 67 ∷ 34 ∷ 89 ∷ 4 ∷ 79 ∷ 88 ∷ 119 ∷ 39 ∷ 51 ∷ 76 ∷ 99 ∷ 36
    ∷ 66 ∷ 94 ∷ 87 ∷ 69 ∷ 20 ∷ 41 ∷ 84 ∷ 70 ∷ 30 ∷ 42 ∷ 48 ∷ 102 ∷ 57 ∷ 72 ∷ 91 ∷ 25 ∷ 22 ∷ 35 ∷ 31
    ∷ 111 ∷ 74 ∷ 75 ∷ 58 ∷ 18 ∷ 19 ∷ 90 ∷ 17 ∷ 118 ∷ 77 ∷ 71 ∷ 116 ∷ 38 ∷ 131 ∷ 141 ∷ 60 ∷ 175 ∷ 124
    ∷ 5 ∷ 8 ∷ 26 ∷ 12 ∷ 133 ∷ 7 ∷ 96 ∷ 78 ∷ 63 ∷ 40 ∷ 73 ∷ 21 ∷ 29 ∷ 13 ∷ 33 ∷ 16 ∷ 2 ∷ 93 ∷ 61
    ∷ 106 ∷ 137 ∷ 146 ∷ 55 ∷ 15 ∷ 121 ∷ 139 ∷ 43 ∷ 53 ∷ 104 ∷ 9 ∷ 6 ∷ 62 ∷ 83 ∷ 135 ∷ 59 ∷ 98 ∷ 65
    ∷ 54 ∷ 122 ∷ 45 ∷ 211 ∷ 32 ∷ 49 ∷ 56 ∷ 11 ∷ 64 ∷ 23 ∷ 1 ∷ 27 ∷ 127 ∷ 218 ∷ 205 ∷ 243 ∷ 223 ∷ 212
    ∷ 95 ∷ 168 ∷ 245 ∷ 255 ∷ 188 ∷ 176 ∷ 180 ∷ 239 ∷ 199 ∷ 192 ∷ 216 ∷ 231 ∷ 206 ∷ 250 ∷ 232 ∷ 252
    ∷ 143 ∷ 215 ∷ 228 ∷ 251 ∷ 148 ∷ 166 ∷ 197 ∷ 165 ∷ 193 ∷ 238 ∷ 173 ∷ 241 ∷ 225 ∷ 249 ∷ 194 ∷ 224
    ∷ 81 ∷ 242 ∷ 219 ∷ 244 ∷ 142 ∷ 248 ∷ 222 ∷ 200 ∷ 174 ∷ 233 ∷ 149 ∷ 236 ∷ 171 ∷ 182 ∷ 158 ∷ 191
    ∷ 128 ∷ 183 ∷ 207 ∷ 202 ∷ 214 ∷ 229 ∷ 187 ∷ 190 ∷ 80 ∷ 210 ∷ 144 ∷ 237 ∷ 169 ∷ 220 ∷ 151 ∷ 126
    ∷ 28 ∷ 203 ∷ 86 ∷ 132 ∷ 178 ∷ 125 ∷ 217 ∷ 253 ∷ 170 ∷ 240 ∷ 155 ∷ 221 ∷ 172 ∷ 152 ∷ 247 ∷ 227
    ∷ 140 ∷ 161 ∷ 198 ∷ 201 ∷ 226 ∷ 208 ∷ 186 ∷ 254 ∷ 163 ∷ 177 ∷ 204 ∷ 184 ∷ 213 ∷ 195 ∷ 145 ∷ 179
    ∷ 37 ∷ 159 ∷ 160 ∷ 189 ∷ 136 ∷ 246 ∷ 156 ∷ 167 ∷ 134 ∷ 44 ∷ 153 ∷ 185 ∷ 162 ∷ 164 ∷ 14 ∷ 157
    ∷ 138 ∷ 235 ∷ 234 ∷ 196 ∷ 150 ∷ 129 ∷ 147 ∷ 230 ∷ 123 ∷ 209 ∷ 130 ∷ 24 ∷ 154 ∷ 181 ∷ 0 ∷ 46 ∷ []

-- What a table gives for an index.
unfoldable pub mapped : List ℕ → ℕ → ℕ
mapped table i = get_or table i 0

-- `WriteScrambledString`: the string without its NUL, and the NUL's byte behind it.
unfoldable pub write_scrambled_string : List ℕ → List ℕ → List ℕ
unfolding mapped
write_scrambled_string table [] = mapped table 0 ∷ []
write_scrambled_string table (c ∷ rest) = mapped table c ∷ write_scrambled_string table rest

-- What is in front of the rest of a string.
abbrev pub extend : ℕ → Option (List ℕ × List ℕ) → Option (List ℕ × List ℕ)
extend c none = none
extend c (some (string, rest)) = some (c ∷ string, rest)

-- `ReadStringInternal`: the characters up to a NUL, and the bytes behind it; none if the message ends
-- before.
unfoldable pub read_string_internal : List ℕ → List ℕ → Option (List ℕ × List ℕ)
unfolding mapped
read_string_internal table [] = none
read_string_internal table (b ∷ bytes) =
    let rest = read_string_internal table bytes in
    if mapped table b == 0 then some ([], bytes) else extend (mapped table b) rest
