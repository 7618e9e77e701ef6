-- ===== src/Ctype/Isdigit.antt =====
-- tests/isdigit/z88dk.c: the 256 test functions, thirty to a definition, and the order in which
-- `main` adds them.
use yalibct.Base.{◌≡◌, refl, List, [], ◌∷◌, ◌++◌}
use yalibct.Ctype.{Check, zeros, nonzeros, table, is_digit_ascii}

t_isdigit_0x00_to_0x1d : List Check
t_isdigit_0x00_to_0x1d = zeros (
    0 ∷ 1 ∷ 2 ∷ 3 ∷ 4 ∷ 5 ∷ 6 ∷ 7 ∷ 8 ∷ 9 ∷ 10 ∷ 11 ∷ 12 ∷ 13 ∷ 14 ∷ 15 ∷ 16 ∷ 17 ∷ 18 ∷ 19 ∷ 20
    ∷ 21 ∷ 22 ∷ 23 ∷ 24 ∷ 25 ∷ 26 ∷ 27 ∷ 28 ∷ 29 ∷ [])

t_isdigit_0x1e_to_0x3b : List Check
t_isdigit_0x1e_to_0x3b =
    zeros
      (30 ∷ 31 ∷ 32 ∷ 33 ∷ 34 ∷ 35 ∷ 36 ∷ 37 ∷ 38 ∷ 39 ∷ 40 ∷ 41 ∷ 42 ∷ 43 ∷ 44 ∷ 45 ∷ 46 ∷ 47 ∷ [])
    ++ nonzeros (48 ∷ 49 ∷ 50 ∷ 51 ∷ 52 ∷ 53 ∷ 54 ∷ 55 ∷ 56 ∷ 57 ∷ [])
    ++ zeros (58 ∷ 59 ∷ [])

t_isdigit_0x3c_to_0x59 : List Check
t_isdigit_0x3c_to_0x59 = zeros (
    60 ∷ 61 ∷ 62 ∷ 63 ∷ 64 ∷ 65 ∷ 66 ∷ 67 ∷ 68 ∷ 69 ∷ 70 ∷ 71 ∷ 72 ∷ 73 ∷ 74 ∷ 75 ∷ 76 ∷ 77 ∷ 78
    ∷ 79 ∷ 80 ∷ 81 ∷ 82 ∷ 83 ∷ 84 ∷ 85 ∷ 86 ∷ 87 ∷ 88 ∷ 89 ∷ [])

t_isdigit_0x5a_to_0x77 : List Check
t_isdigit_0x5a_to_0x77 = zeros (
    90 ∷ 91 ∷ 92 ∷ 93 ∷ 94 ∷ 95 ∷ 96 ∷ 97 ∷ 98 ∷ 99 ∷ 100 ∷ 101 ∷ 102 ∷ 103 ∷ 104 ∷ 105 ∷ 106 ∷ 107
    ∷ 108 ∷ 109 ∷ 110 ∷ 111 ∷ 112 ∷ 113 ∷ 114 ∷ 115 ∷ 116 ∷ 117 ∷ 118 ∷ 119 ∷ [])

t_isdigit_0x78_to_0x95 : List Check
t_isdigit_0x78_to_0x95 = zeros (
    120 ∷ 121 ∷ 122 ∷ 123 ∷ 124 ∷ 125 ∷ 126 ∷ 127 ∷ 128 ∷ 129 ∷ 130 ∷ 131 ∷ 132 ∷ 133 ∷ 134 ∷ 135
    ∷ 136 ∷ 137 ∷ 138 ∷ 139 ∷ 140 ∷ 141 ∷ 142 ∷ 143 ∷ 144 ∷ 145 ∷ 146 ∷ 147 ∷ 148 ∷ 149 ∷ [])

t_isdigit_0x96_to_0xb3 : List Check
t_isdigit_0x96_to_0xb3 = zeros (
    150 ∷ 151 ∷ 152 ∷ 153 ∷ 154 ∷ 155 ∷ 156 ∷ 157 ∷ 158 ∷ 159 ∷ 160 ∷ 161 ∷ 162 ∷ 163 ∷ 164 ∷ 165
    ∷ 166 ∷ 167 ∷ 168 ∷ 169 ∷ 170 ∷ 171 ∷ 172 ∷ 173 ∷ 174 ∷ 175 ∷ 176 ∷ 177 ∷ 178 ∷ 179 ∷ [])

t_isdigit_0xb4_to_0xd1 : List Check
t_isdigit_0xb4_to_0xd1 = zeros (
    180 ∷ 181 ∷ 182 ∷ 183 ∷ 184 ∷ 185 ∷ 186 ∷ 187 ∷ 188 ∷ 189 ∷ 190 ∷ 191 ∷ 192 ∷ 193 ∷ 194 ∷ 195
    ∷ 196 ∷ 197 ∷ 198 ∷ 199 ∷ 200 ∷ 201 ∷ 202 ∷ 203 ∷ 204 ∷ 205 ∷ 206 ∷ 207 ∷ 208 ∷ 209 ∷ [])

t_isdigit_0xd2_to_0xef : List Check
t_isdigit_0xd2_to_0xef = zeros (
    210 ∷ 211 ∷ 212 ∷ 213 ∷ 214 ∷ 215 ∷ 216 ∷ 217 ∷ 218 ∷ 219 ∷ 220 ∷ 221 ∷ 222 ∷ 223 ∷ 224 ∷ 225
    ∷ 226 ∷ 227 ∷ 228 ∷ 229 ∷ 230 ∷ 231 ∷ 232 ∷ 233 ∷ 234 ∷ 235 ∷ 236 ∷ 237 ∷ 238 ∷ 239 ∷ [])

t_isdigit_0xf0_to_0xff : List Check
t_isdigit_0xf0_to_0xff = zeros (
    240 ∷ 241 ∷ 242 ∷ 243 ∷ 244 ∷ 245 ∷ 246 ∷ 247 ∷ 248 ∷ 249 ∷ 250 ∷ 251 ∷ 252 ∷ 253 ∷ 254 ∷ 255
    ∷ [])

-- The checks in the order of the calls of `suite_add_test`.
pub isdigit_tests : List Check
unfolding t_isdigit_0x00_to_0x1d t_isdigit_0x1e_to_0x3b t_isdigit_0x3c_to_0x59
    t_isdigit_0x5a_to_0x77 t_isdigit_0x78_to_0x95 t_isdigit_0x96_to_0xb3 t_isdigit_0xb4_to_0xd1
    t_isdigit_0xd2_to_0xef t_isdigit_0xf0_to_0xff
isdigit_tests =
    t_isdigit_0x00_to_0x1d
    ++ (t_isdigit_0x1e_to_0x3b
        ++ (t_isdigit_0x3c_to_0x59
            ++ (t_isdigit_0x5a_to_0x77
                ++ (t_isdigit_0x78_to_0x95
                    ++ (t_isdigit_0x96_to_0xb3
                        ++ (t_isdigit_0xb4_to_0xd1
                            ++ (t_isdigit_0xd2_to_0xef ++ (t_isdigit_0xf0_to_0xff))))))))

-- The tables ask of every byte value whether it is in the class.
pub isdigit_tests-table : isdigit_tests ≡ table is_digit_ascii 256 0
unfolding isdigit_tests is_digit_ascii
isdigit_tests-table = refl
