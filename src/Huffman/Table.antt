-- ===== src/Huffman/Table.antt =====
-- The tree of mohpc-lib/Utility/Misc/MSG/CodecCompressor.h, by which values are compressed, and that
-- of CodecDecompressor.h, which holds the same rows.
use mohpc.Base.{ℕ, List, [], ◌∷◌}
use mohpc.Huffman.{ConstHuff, const_huff}

-- `locNums`
abbrev loc_nums : List ℕ
loc_nums =
    1 ∷ 3 ∷ 5 ∷ 7 ∷ 9 ∷ 11 ∷ 13 ∷ 15 ∷ 17 ∷ 19 ∷ 21 ∷ 23 ∷ 25 ∷ 27 ∷ 29 ∷ 31 ∷ 33 ∷ 35 ∷ 37 ∷ 39
    ∷ 41 ∷ 43 ∷ 45 ∷ 47 ∷ 49 ∷ 51 ∷ 53 ∷ 55 ∷ 57 ∷ 59 ∷ 61 ∷ 63 ∷ 65 ∷ 67 ∷ 69 ∷ 71 ∷ 73 ∷ 75 ∷ 77
    ∷ 79 ∷ 81 ∷ 83 ∷ 85 ∷ 87 ∷ 89 ∷ 91 ∷ 93 ∷ 95 ∷ 97 ∷ 99 ∷ 101 ∷ 103 ∷ 105 ∷ 107 ∷ 109 ∷ 111 ∷ 113
    ∷ 115 ∷ 117 ∷ 119 ∷ 121 ∷ 123 ∷ 125 ∷ 127 ∷ 129 ∷ 131 ∷ 133 ∷ 135 ∷ 137 ∷ 139 ∷ 141 ∷ 143 ∷ 145
    ∷ 147 ∷ 149 ∷ 151 ∷ 153 ∷ 155 ∷ 157 ∷ 159 ∷ 161 ∷ 163 ∷ 165 ∷ 167 ∷ 169 ∷ 171 ∷ 173 ∷ 175 ∷ 177
    ∷ 179 ∷ 181 ∷ 183 ∷ 185 ∷ 187 ∷ 189 ∷ 191 ∷ 193 ∷ 195 ∷ 197 ∷ 199 ∷ 201 ∷ 203 ∷ 205 ∷ 207 ∷ 209
    ∷ 211 ∷ 213 ∷ 215 ∷ 217 ∷ 219 ∷ 221 ∷ 223 ∷ 225 ∷ 227 ∷ 229 ∷ 231 ∷ 233 ∷ 235 ∷ 237 ∷ 239 ∷ 241
    ∷ 243 ∷ 245 ∷ 247 ∷ 249 ∷ 251 ∷ 253 ∷ 255 ∷ 257 ∷ 259 ∷ 261 ∷ 263 ∷ 265 ∷ 267 ∷ 269 ∷ 271 ∷ 273
    ∷ 275 ∷ 277 ∷ 279 ∷ 281 ∷ 283 ∷ 285 ∷ 287 ∷ 289 ∷ 291 ∷ 293 ∷ 295 ∷ 297 ∷ 299 ∷ 301 ∷ 303 ∷ 305
    ∷ 307 ∷ 309 ∷ 311 ∷ 313 ∷ 315 ∷ 317 ∷ 319 ∷ 321 ∷ 323 ∷ 325 ∷ 327 ∷ 329 ∷ 331 ∷ 333 ∷ 335 ∷ 337
    ∷ 339 ∷ 341 ∷ 343 ∷ 345 ∷ 347 ∷ 349 ∷ 351 ∷ 353 ∷ 355 ∷ 357 ∷ 359 ∷ 361 ∷ 363 ∷ 365 ∷ 367 ∷ 369
    ∷ 371 ∷ 373 ∷ 375 ∷ 377 ∷ 379 ∷ 381 ∷ 383 ∷ 385 ∷ 387 ∷ 389 ∷ 391 ∷ 393 ∷ 395 ∷ 397 ∷ 399 ∷ 401
    ∷ 403 ∷ 405 ∷ 407 ∷ 409 ∷ 411 ∷ 413 ∷ 415 ∷ 417 ∷ 419 ∷ 421 ∷ 423 ∷ 425 ∷ 427 ∷ 429 ∷ 431 ∷ 433
    ∷ 435 ∷ 437 ∷ 439 ∷ 441 ∷ 443 ∷ 445 ∷ 447 ∷ 449 ∷ 451 ∷ 453 ∷ 455 ∷ 457 ∷ 459 ∷ 461 ∷ 463 ∷ 465
    ∷ 467 ∷ 469 ∷ 471 ∷ 473 ∷ 475 ∷ 477 ∷ 479 ∷ 481 ∷ 483 ∷ 485 ∷ 487 ∷ 489 ∷ 491 ∷ 493 ∷ 495 ∷ 497
    ∷ 499 ∷ 501 ∷ 503 ∷ 505 ∷ 507 ∷ 509 ∷ 511 ∷ 0 ∷ []

-- `archivedNodes`: of each row the fields `left`, `right`, `parent` and `symbol`, which are all that
-- ConstHuff reads. 513, which is no index, stands for -1.
abbrev archived_nodes : List ℕ
archived_nodes =
    513 ∷ 513 ∷ 512 ∷ 256 ∷ 513 ∷ 513 ∷ 6 ∷ 0 ∷ 6 ∷ 4 ∷ 513 ∷ 257 ∷ 513 ∷ 513 ∷ 30 ∷ 1 ∷ 10 ∷ 8 ∷ 2
    ∷ 257 ∷ 513 ∷ 513 ∷ 160 ∷ 2 ∷ 12 ∷ 1 ∷ 2 ∷ 257 ∷ 513 ∷ 513 ∷ 144 ∷ 3 ∷ 16 ∷ 14 ∷ 4 ∷ 257 ∷ 513
    ∷ 513 ∷ 234 ∷ 4 ∷ 20 ∷ 18 ∷ 4 ∷ 257 ∷ 513 ∷ 513 ∷ 230 ∷ 5 ∷ 24 ∷ 22 ∷ 6 ∷ 257 ∷ 513 ∷ 513 ∷ 164
    ∷ 6 ∷ 28 ∷ 26 ∷ 8 ∷ 257 ∷ 513 ∷ 513 ∷ 50 ∷ 7 ∷ 32 ∷ 30 ∷ 8 ∷ 257 ∷ 513 ∷ 513 ∷ 36 ∷ 8 ∷ 36 ∷ 34
    ∷ 10 ∷ 257 ∷ 513 ∷ 513 ∷ 148 ∷ 9 ∷ 40 ∷ 38 ∷ 10 ∷ 257 ∷ 513 ∷ 513 ∷ 130 ∷ 10 ∷ 44 ∷ 42 ∷ 12
    ∷ 257 ∷ 513 ∷ 513 ∷ 106 ∷ 11 ∷ 48 ∷ 46 ∷ 12 ∷ 257 ∷ 513 ∷ 513 ∷ 110 ∷ 12 ∷ 52 ∷ 50 ∷ 14 ∷ 257
    ∷ 513 ∷ 513 ∷ 66 ∷ 13 ∷ 56 ∷ 54 ∷ 14 ∷ 257 ∷ 513 ∷ 513 ∷ 220 ∷ 14 ∷ 58 ∷ 3 ∷ 16 ∷ 257 ∷ 513
    ∷ 513 ∷ 352 ∷ 15 ∷ 62 ∷ 60 ∷ 16 ∷ 257 ∷ 513 ∷ 513 ∷ 122 ∷ 16 ∷ 66 ∷ 64 ∷ 18 ∷ 257 ∷ 513 ∷ 513
    ∷ 370 ∷ 17 ∷ 68 ∷ 17 ∷ 18 ∷ 257 ∷ 513 ∷ 513 ∷ 374 ∷ 18 ∷ 72 ∷ 70 ∷ 20 ∷ 257 ∷ 513 ∷ 513 ∷ 366
    ∷ 19 ∷ 76 ∷ 74 ∷ 20 ∷ 257 ∷ 513 ∷ 513 ∷ 432 ∷ 20 ∷ 80 ∷ 78 ∷ 22 ∷ 257 ∷ 513 ∷ 513 ∷ 404 ∷ 21
    ∷ 84 ∷ 82 ∷ 22 ∷ 257 ∷ 513 ∷ 513 ∷ 400 ∷ 22 ∷ 88 ∷ 86 ∷ 24 ∷ 257 ∷ 513 ∷ 513 ∷ 422 ∷ 23 ∷ 92
    ∷ 90 ∷ 24 ∷ 257 ∷ 513 ∷ 513 ∷ 356 ∷ 24 ∷ 257 ∷ 15 ∷ 26 ∷ 257 ∷ 513 ∷ 513 ∷ 448 ∷ 25 ∷ 96 ∷ 94
    ∷ 26 ∷ 257 ∷ 513 ∷ 513 ∷ 396 ∷ 26 ∷ 98 ∷ 65 ∷ 28 ∷ 257 ∷ 513 ∷ 513 ∷ 418 ∷ 27 ∷ 102 ∷ 100 ∷ 28
    ∷ 257 ∷ 513 ∷ 513 ∷ 390 ∷ 28 ∷ 106 ∷ 104 ∷ 30 ∷ 257 ∷ 513 ∷ 513 ∷ 200 ∷ 29 ∷ 110 ∷ 108 ∷ 32
    ∷ 257 ∷ 513 ∷ 513 ∷ 268 ∷ 30 ∷ 114 ∷ 112 ∷ 32 ∷ 257 ∷ 513 ∷ 513 ∷ 248 ∷ 31 ∷ 118 ∷ 116 ∷ 34
    ∷ 257 ∷ 513 ∷ 513 ∷ 54 ∷ 32 ∷ 120 ∷ 27 ∷ 34 ∷ 257 ∷ 513 ∷ 513 ∷ 412 ∷ 33 ∷ 124 ∷ 122 ∷ 36 ∷ 257
    ∷ 513 ∷ 513 ∷ 364 ∷ 34 ∷ 128 ∷ 126 ∷ 38 ∷ 257 ∷ 513 ∷ 513 ∷ 444 ∷ 35 ∷ 132 ∷ 130 ∷ 38 ∷ 257
    ∷ 513 ∷ 513 ∷ 454 ∷ 36 ∷ 136 ∷ 134 ∷ 40 ∷ 257 ∷ 513 ∷ 513 ∷ 464 ∷ 37 ∷ 140 ∷ 138 ∷ 40 ∷ 257
    ∷ 513 ∷ 513 ∷ 452 ∷ 38 ∷ 209 ∷ 142 ∷ 42 ∷ 257 ∷ 513 ∷ 513 ∷ 442 ∷ 39 ∷ 146 ∷ 144 ∷ 42 ∷ 257
    ∷ 513 ∷ 513 ∷ 358 ∷ 40 ∷ 150 ∷ 148 ∷ 44 ∷ 257 ∷ 513 ∷ 513 ∷ 494 ∷ 41 ∷ 152 ∷ 511 ∷ 44 ∷ 257
    ∷ 513 ∷ 513 ∷ 408 ∷ 42 ∷ 156 ∷ 154 ∷ 46 ∷ 257 ∷ 513 ∷ 513 ∷ 500 ∷ 43 ∷ 160 ∷ 158 ∷ 46 ∷ 257
    ∷ 513 ∷ 513 ∷ 476 ∷ 44 ∷ 164 ∷ 162 ∷ 48 ∷ 257 ∷ 513 ∷ 513 ∷ 508 ∷ 45 ∷ 166 ∷ 391 ∷ 48 ∷ 257
    ∷ 513 ∷ 513 ∷ 356 ∷ 46 ∷ 509 ∷ 168 ∷ 52 ∷ 257 ∷ 513 ∷ 513 ∷ 254 ∷ 47 ∷ 172 ∷ 170 ∷ 52 ∷ 257
    ∷ 513 ∷ 513 ∷ 100 ∷ 48 ∷ 176 ∷ 174 ∷ 54 ∷ 257 ∷ 513 ∷ 513 ∷ 200 ∷ 49 ∷ 97 ∷ 178 ∷ 56 ∷ 257 ∷ 513
    ∷ 513 ∷ 168 ∷ 50 ∷ 182 ∷ 180 ∷ 56 ∷ 257 ∷ 513 ∷ 513 ∷ 274 ∷ 51 ∷ 186 ∷ 184 ∷ 58 ∷ 257 ∷ 513
    ∷ 513 ∷ 194 ∷ 52 ∷ 23 ∷ 188 ∷ 58 ∷ 257 ∷ 513 ∷ 513 ∷ 226 ∷ 53 ∷ 192 ∷ 190 ∷ 60 ∷ 257 ∷ 513 ∷ 513
    ∷ 320 ∷ 54 ∷ 25 ∷ 194 ∷ 60 ∷ 257 ∷ 513 ∷ 513 ∷ 344 ∷ 55 ∷ 198 ∷ 196 ∷ 62 ∷ 257 ∷ 513 ∷ 513 ∷ 278
    ∷ 56 ∷ 202 ∷ 200 ∷ 62 ∷ 257 ∷ 513 ∷ 513 ∷ 334 ∷ 57 ∷ 204 ∷ 263 ∷ 64 ∷ 257 ∷ 513 ∷ 513 ∷ 332 ∷ 58
    ∷ 208 ∷ 206 ∷ 64 ∷ 257 ∷ 513 ∷ 513 ∷ 482 ∷ 59 ∷ 212 ∷ 210 ∷ 66 ∷ 257 ∷ 513 ∷ 513 ∷ 422 ∷ 60 ∷ 33
    ∷ 255 ∷ 68 ∷ 257 ∷ 513 ∷ 513 ∷ 350 ∷ 61 ∷ 216 ∷ 214 ∷ 68 ∷ 257 ∷ 513 ∷ 513 ∷ 364 ∷ 62 ∷ 220
    ∷ 218 ∷ 70 ∷ 257 ∷ 513 ∷ 513 ∷ 404 ∷ 63 ∷ 222 ∷ 233 ∷ 70 ∷ 257 ∷ 513 ∷ 513 ∷ 170 ∷ 64 ∷ 259 ∷ 21
    ∷ 72 ∷ 257 ∷ 513 ∷ 513 ∷ 164 ∷ 65 ∷ 393 ∷ 465 ∷ 72 ∷ 257 ∷ 513 ∷ 513 ∷ 142 ∷ 66 ∷ 226 ∷ 224 ∷ 74
    ∷ 257 ∷ 513 ∷ 513 ∷ 152 ∷ 67 ∷ 230 ∷ 228 ∷ 74 ∷ 257 ∷ 513 ∷ 513 ∷ 234 ∷ 68 ∷ 234 ∷ 232 ∷ 76
    ∷ 257 ∷ 513 ∷ 513 ∷ 228 ∷ 69 ∷ 238 ∷ 236 ∷ 76 ∷ 257 ∷ 513 ∷ 513 ∷ 378 ∷ 70 ∷ 240 ∷ 133 ∷ 78
    ∷ 257 ∷ 513 ∷ 513 ∷ 376 ∷ 71 ∷ 242 ∷ 7 ∷ 80 ∷ 257 ∷ 513 ∷ 513 ∷ 306 ∷ 72 ∷ 244 ∷ 261 ∷ 80 ∷ 257
    ∷ 513 ∷ 513 ∷ 420 ∷ 73 ∷ 19 ∷ 246 ∷ 82 ∷ 257 ∷ 513 ∷ 513 ∷ 384 ∷ 74 ∷ 250 ∷ 248 ∷ 82 ∷ 257 ∷ 513
    ∷ 513 ∷ 474 ∷ 75 ∷ 135 ∷ 252 ∷ 84 ∷ 257 ∷ 513 ∷ 513 ∷ 310 ∷ 76 ∷ 256 ∷ 254 ∷ 86 ∷ 257 ∷ 513
    ∷ 513 ∷ 396 ∷ 77 ∷ 260 ∷ 258 ∷ 86 ∷ 257 ∷ 513 ∷ 513 ∷ 386 ∷ 78 ∷ 262 ∷ 251 ∷ 88 ∷ 257 ∷ 513
    ∷ 513 ∷ 406 ∷ 79 ∷ 253 ∷ 5 ∷ 88 ∷ 257 ∷ 513 ∷ 513 ∷ 354 ∷ 80 ∷ 203 ∷ 264 ∷ 90 ∷ 257 ∷ 513 ∷ 513
    ∷ 436 ∷ 81 ∷ 13 ∷ 131 ∷ 90 ∷ 257 ∷ 513 ∷ 513 ∷ 392 ∷ 82 ∷ 266 ∷ 235 ∷ 92 ∷ 257 ∷ 513 ∷ 513 ∷ 392
    ∷ 83 ∷ 249 ∷ 101 ∷ 94 ∷ 257 ∷ 513 ∷ 513 ∷ 410 ∷ 84 ∷ 268 ∷ 129 ∷ 96 ∷ 257 ∷ 513 ∷ 513 ∷ 474 ∷ 85
    ∷ 265 ∷ 270 ∷ 96 ∷ 257 ∷ 513 ∷ 513 ∷ 414 ∷ 86 ∷ 277 ∷ 272 ∷ 98 ∷ 257 ∷ 513 ∷ 513 ∷ 408 ∷ 87
    ∷ 237 ∷ 274 ∷ 98 ∷ 257 ∷ 513 ∷ 513 ∷ 384 ∷ 88 ∷ 273 ∷ 275 ∷ 100 ∷ 257 ∷ 513 ∷ 513 ∷ 402 ∷ 89
    ∷ 229 ∷ 276 ∷ 102 ∷ 257 ∷ 513 ∷ 513 ∷ 376 ∷ 90 ∷ 278 ∷ 271 ∷ 102 ∷ 257 ∷ 513 ∷ 513 ∷ 372 ∷ 91
    ∷ 282 ∷ 280 ∷ 104 ∷ 257 ∷ 513 ∷ 513 ∷ 276 ∷ 92 ∷ 286 ∷ 284 ∷ 104 ∷ 257 ∷ 513 ∷ 513 ∷ 326 ∷ 93
    ∷ 241 ∷ 288 ∷ 106 ∷ 257 ∷ 513 ∷ 513 ∷ 280 ∷ 94 ∷ 247 ∷ 290 ∷ 108 ∷ 257 ∷ 513 ∷ 513 ∷ 258 ∷ 95
    ∷ 292 ∷ 223 ∷ 108 ∷ 257 ∷ 513 ∷ 513 ∷ 290 ∷ 96 ∷ 105 ∷ 294 ∷ 110 ∷ 257 ∷ 513 ∷ 513 ∷ 240 ∷ 97
    ∷ 298 ∷ 296 ∷ 112 ∷ 257 ∷ 513 ∷ 513 ∷ 284 ∷ 98 ∷ 300 ∷ 245 ∷ 112 ∷ 257 ∷ 513 ∷ 513 ∷ 270 ∷ 99
    ∷ 59 ∷ 99 ∷ 114 ∷ 257 ∷ 513 ∷ 513 ∷ 274 ∷ 100 ∷ 302 ∷ 267 ∷ 114 ∷ 257 ∷ 513 ∷ 513 ∷ 162 ∷ 101
    ∷ 306 ∷ 304 ∷ 116 ∷ 257 ∷ 513 ∷ 513 ∷ 236 ∷ 102 ∷ 389 ∷ 308 ∷ 118 ∷ 257 ∷ 513 ∷ 513 ∷ 268 ∷ 103
    ∷ 312 ∷ 310 ∷ 118 ∷ 257 ∷ 513 ∷ 513 ∷ 78 ∷ 104 ∷ 316 ∷ 314 ∷ 120 ∷ 257 ∷ 513 ∷ 513 ∷ 262 ∷ 105
    ∷ 320 ∷ 318 ∷ 120 ∷ 257 ∷ 513 ∷ 513 ∷ 304 ∷ 106 ∷ 324 ∷ 322 ∷ 124 ∷ 257 ∷ 513 ∷ 513 ∷ 362 ∷ 107
    ∷ 326 ∷ 225 ∷ 124 ∷ 257 ∷ 513 ∷ 513 ∷ 260 ∷ 108 ∷ 231 ∷ 328 ∷ 126 ∷ 257 ∷ 513 ∷ 513 ∷ 270 ∷ 109
    ∷ 29 ∷ 330 ∷ 126 ∷ 257 ∷ 513 ∷ 513 ∷ 244 ∷ 110 ∷ 239 ∷ 332 ∷ 128 ∷ 257 ∷ 513 ∷ 513 ∷ 192 ∷ 111
    ∷ 336 ∷ 334 ∷ 134 ∷ 257 ∷ 513 ∷ 513 ∷ 216 ∷ 112 ∷ 338 ∷ 107 ∷ 134 ∷ 257 ∷ 513 ∷ 513 ∷ 244 ∷ 113
    ∷ 139 ∷ 340 ∷ 136 ∷ 257 ∷ 513 ∷ 513 ∷ 180 ∷ 114 ∷ 11 ∷ 342 ∷ 136 ∷ 257 ∷ 513 ∷ 513 ∷ 218 ∷ 115
    ∷ 344 ∷ 243 ∷ 138 ∷ 257 ∷ 513 ∷ 513 ∷ 128 ∷ 116 ∷ 137 ∷ 9 ∷ 138 ∷ 257 ∷ 513 ∷ 513 ∷ 166 ∷ 117
    ∷ 205 ∷ 346 ∷ 140 ∷ 257 ∷ 513 ∷ 513 ∷ 176 ∷ 118 ∷ 269 ∷ 348 ∷ 140 ∷ 257 ∷ 513 ∷ 513 ∷ 222 ∷ 119
    ∷ 195 ∷ 350 ∷ 142 ∷ 257 ∷ 513 ∷ 513 ∷ 188 ∷ 120 ∷ 354 ∷ 352 ∷ 144 ∷ 257 ∷ 513 ∷ 513 ∷ 232 ∷ 121
    ∷ 221 ∷ 227 ∷ 146 ∷ 257 ∷ 513 ∷ 513 ∷ 198 ∷ 122 ∷ 279 ∷ 356 ∷ 148 ∷ 257 ∷ 513 ∷ 513 ∷ 190 ∷ 123
    ∷ 385 ∷ 63 ∷ 150 ∷ 257 ∷ 513 ∷ 513 ∷ 168 ∷ 124 ∷ 360 ∷ 358 ∷ 150 ∷ 257 ∷ 513 ∷ 513 ∷ 158 ∷ 125
    ∷ 364 ∷ 362 ∷ 152 ∷ 257 ∷ 513 ∷ 513 ∷ 160 ∷ 126 ∷ 95 ∷ 366 ∷ 154 ∷ 257 ∷ 513 ∷ 513 ∷ 122 ∷ 127
    ∷ 368 ∷ 399 ∷ 154 ∷ 257 ∷ 513 ∷ 513 ∷ 50 ∷ 128 ∷ 370 ∷ 191 ∷ 156 ∷ 257 ∷ 513 ∷ 513 ∷ 130 ∷ 129
    ∷ 475 ∷ 217 ∷ 156 ∷ 257 ∷ 513 ∷ 513 ∷ 146 ∷ 130 ∷ 211 ∷ 372 ∷ 158 ∷ 257 ∷ 513 ∷ 513 ∷ 116 ∷ 131
    ∷ 376 ∷ 374 ∷ 162 ∷ 257 ∷ 513 ∷ 513 ∷ 172 ∷ 132 ∷ 380 ∷ 378 ∷ 166 ∷ 257 ∷ 513 ∷ 513 ∷ 202 ∷ 133
    ∷ 61 ∷ 207 ∷ 170 ∷ 257 ∷ 513 ∷ 513 ∷ 238 ∷ 134 ∷ 219 ∷ 199 ∷ 172 ∷ 257 ∷ 513 ∷ 513 ∷ 182 ∷ 135
    ∷ 384 ∷ 382 ∷ 174 ∷ 257 ∷ 513 ∷ 513 ∷ 178 ∷ 136 ∷ 201 ∷ 103 ∷ 176 ∷ 257 ∷ 513 ∷ 513 ∷ 178 ∷ 137
    ∷ 185 ∷ 386 ∷ 180 ∷ 257 ∷ 513 ∷ 513 ∷ 174 ∷ 138 ∷ 113 ∷ 388 ∷ 182 ∷ 257 ∷ 513 ∷ 513 ∷ 246 ∷ 139
    ∷ 189 ∷ 390 ∷ 184 ∷ 257 ∷ 513 ∷ 513 ∷ 288 ∷ 140 ∷ 394 ∷ 392 ∷ 184 ∷ 257 ∷ 513 ∷ 513 ∷ 362 ∷ 141
    ∷ 396 ∷ 197 ∷ 186 ∷ 257 ∷ 513 ∷ 513 ∷ 348 ∷ 142 ∷ 400 ∷ 398 ∷ 186 ∷ 257 ∷ 513 ∷ 513 ∷ 316 ∷ 143
    ∷ 402 ∷ 281 ∷ 188 ∷ 257 ∷ 513 ∷ 513 ∷ 338 ∷ 144 ∷ 193 ∷ 404 ∷ 190 ∷ 257 ∷ 513 ∷ 513 ∷ 418 ∷ 145
    ∷ 408 ∷ 406 ∷ 192 ∷ 257 ∷ 513 ∷ 513 ∷ 378 ∷ 146 ∷ 412 ∷ 410 ∷ 194 ∷ 257 ∷ 513 ∷ 513 ∷ 382 ∷ 147
    ∷ 416 ∷ 414 ∷ 196 ∷ 257 ∷ 513 ∷ 513 ∷ 400 ∷ 148 ∷ 420 ∷ 418 ∷ 196 ∷ 257 ∷ 513 ∷ 513 ∷ 458 ∷ 149
    ∷ 424 ∷ 422 ∷ 198 ∷ 257 ∷ 513 ∷ 513 ∷ 394 ∷ 150 ∷ 426 ∷ 387 ∷ 202 ∷ 257 ∷ 513 ∷ 513 ∷ 430 ∷ 151
    ∷ 213 ∷ 428 ∷ 204 ∷ 257 ∷ 513 ∷ 513 ∷ 398 ∷ 152 ∷ 430 ∷ 145 ∷ 204 ∷ 257 ∷ 513 ∷ 513 ∷ 466 ∷ 153
    ∷ 434 ∷ 432 ∷ 206 ∷ 257 ∷ 513 ∷ 513 ∷ 416 ∷ 154 ∷ 436 ∷ 153 ∷ 208 ∷ 257 ∷ 513 ∷ 513 ∷ 460 ∷ 155
    ∷ 440 ∷ 438 ∷ 208 ∷ 257 ∷ 513 ∷ 513 ∷ 398 ∷ 156 ∷ 444 ∷ 442 ∷ 210 ∷ 257 ∷ 513 ∷ 513 ∷ 478 ∷ 157
    ∷ 287 ∷ 446 ∷ 210 ∷ 257 ∷ 513 ∷ 513 ∷ 390 ∷ 158 ∷ 450 ∷ 448 ∷ 212 ∷ 257 ∷ 513 ∷ 513 ∷ 468 ∷ 159
    ∷ 109 ∷ 452 ∷ 212 ∷ 257 ∷ 513 ∷ 513 ∷ 360 ∷ 160 ∷ 456 ∷ 454 ∷ 214 ∷ 257 ∷ 513 ∷ 513 ∷ 464 ∷ 161
    ∷ 460 ∷ 458 ∷ 214 ∷ 257 ∷ 513 ∷ 513 ∷ 406 ∷ 162 ∷ 462 ∷ 187 ∷ 216 ∷ 257 ∷ 513 ∷ 513 ∷ 496 ∷ 163
    ∷ 466 ∷ 464 ∷ 218 ∷ 257 ∷ 513 ∷ 513 ∷ 434 ∷ 164 ∷ 470 ∷ 468 ∷ 220 ∷ 257 ∷ 513 ∷ 513 ∷ 486 ∷ 165
    ∷ 472 ∷ 117 ∷ 222 ∷ 257 ∷ 513 ∷ 513 ∷ 438 ∷ 166 ∷ 115 ∷ 401 ∷ 224 ∷ 257 ∷ 513 ∷ 513 ∷ 480 ∷ 167
    ∷ 476 ∷ 474 ∷ 224 ∷ 257 ∷ 513 ∷ 513 ∷ 368 ∷ 168 ∷ 478 ∷ 289 ∷ 226 ∷ 257 ∷ 513 ∷ 513 ∷ 484 ∷ 169
    ∷ 449 ∷ 480 ∷ 228 ∷ 257 ∷ 513 ∷ 513 ∷ 416 ∷ 170 ∷ 451 ∷ 482 ∷ 230 ∷ 257 ∷ 513 ∷ 513 ∷ 458 ∷ 171
    ∷ 484 ∷ 111 ∷ 232 ∷ 257 ∷ 513 ∷ 513 ∷ 394 ∷ 172 ∷ 488 ∷ 486 ∷ 236 ∷ 257 ∷ 513 ∷ 513 ∷ 444 ∷ 173
    ∷ 285 ∷ 490 ∷ 238 ∷ 257 ∷ 513 ∷ 513 ∷ 402 ∷ 174 ∷ 123 ∷ 492 ∷ 240 ∷ 257 ∷ 513 ∷ 513 ∷ 446 ∷ 175
    ∷ 31 ∷ 494 ∷ 242 ∷ 257 ∷ 513 ∷ 513 ∷ 368 ∷ 176 ∷ 496 ∷ 161 ∷ 242 ∷ 257 ∷ 513 ∷ 513 ∷ 486 ∷ 177
    ∷ 49 ∷ 93 ∷ 246 ∷ 257 ∷ 513 ∷ 513 ∷ 430 ∷ 178 ∷ 81 ∷ 498 ∷ 250 ∷ 257 ∷ 513 ∷ 513 ∷ 492 ∷ 179
    ∷ 500 ∷ 321 ∷ 250 ∷ 257 ∷ 513 ∷ 513 ∷ 456 ∷ 180 ∷ 215 ∷ 283 ∷ 252 ∷ 257 ∷ 513 ∷ 513 ∷ 494 ∷ 181
    ∷ 69 ∷ 125 ∷ 252 ∷ 257 ∷ 513 ∷ 513 ∷ 414 ∷ 182 ∷ 502 ∷ 39 ∷ 254 ∷ 257 ∷ 513 ∷ 513 ∷ 472 ∷ 183
    ∷ 353 ∷ 337 ∷ 256 ∷ 257 ∷ 513 ∷ 513 ∷ 410 ∷ 184 ∷ 35 ∷ 504 ∷ 258 ∷ 257 ∷ 513 ∷ 513 ∷ 500 ∷ 185
    ∷ 183 ∷ 506 ∷ 262 ∷ 257 ∷ 513 ∷ 513 ∷ 426 ∷ 186 ∷ 508 ∷ 37 ∷ 264 ∷ 257 ∷ 513 ∷ 513 ∷ 492 ∷ 187
    ∷ 143 ∷ 181 ∷ 264 ∷ 257 ∷ 513 ∷ 513 ∷ 436 ∷ 188 ∷ 141 ∷ 293 ∷ 266 ∷ 257 ∷ 513 ∷ 513 ∷ 490 ∷ 189
    ∷ 417 ∷ 510 ∷ 266 ∷ 257 ∷ 513 ∷ 513 ∷ 420 ∷ 190 ∷ 481 ∷ 295 ∷ 272 ∷ 257 ∷ 513 ∷ 513 ∷ 450 ∷ 191
    ∷ 177 ∷ 149 ∷ 272 ∷ 257 ∷ 513 ∷ 513 ∷ 248 ∷ 192 ∷ 157 ∷ 395 ∷ 276 ∷ 257 ∷ 513 ∷ 513 ∷ 302 ∷ 193
    ∷ 469 ∷ 397 ∷ 278 ∷ 257 ∷ 513 ∷ 513 ∷ 206 ∷ 194 ∷ 57 ∷ 317 ∷ 280 ∷ 257 ∷ 513 ∷ 513 ∷ 92 ∷ 195
    ∷ 165 ∷ 167 ∷ 282 ∷ 257 ∷ 513 ∷ 513 ∷ 132 ∷ 196 ∷ 301 ∷ 345 ∷ 282 ∷ 257 ∷ 513 ∷ 513 ∷ 386 ∷ 197
    ∷ 53 ∷ 155 ∷ 284 ∷ 257 ∷ 513 ∷ 513 ∷ 388 ∷ 198 ∷ 313 ∷ 305 ∷ 286 ∷ 257 ∷ 513 ∷ 513 ∷ 256 ∷ 199
    ∷ 297 ∷ 45 ∷ 286 ∷ 257 ∷ 513 ∷ 513 ∷ 334 ∷ 200 ∷ 349 ∷ 179 ∷ 288 ∷ 257 ∷ 513 ∷ 513 ∷ 496 ∷ 201
    ∷ 127 ∷ 43 ∷ 290 ∷ 257 ∷ 513 ∷ 513 ∷ 460 ∷ 202 ∷ 325 ∷ 159 ∷ 292 ∷ 257 ∷ 513 ∷ 513 ∷ 426 ∷ 203
    ∷ 85 ∷ 175 ∷ 292 ∷ 257 ∷ 513 ∷ 513 ∷ 438 ∷ 204 ∷ 169 ∷ 369 ∷ 294 ∷ 257 ∷ 513 ∷ 513 ∷ 454 ∷ 205
    ∷ 67 ∷ 461 ∷ 294 ∷ 257 ∷ 513 ∷ 513 ∷ 446 ∷ 206 ∷ 173 ∷ 365 ∷ 296 ∷ 257 ∷ 513 ∷ 513 ∷ 440 ∷ 207
    ∷ 309 ∷ 341 ∷ 296 ∷ 257 ∷ 513 ∷ 513 ∷ 380 ∷ 208 ∷ 291 ∷ 55 ∷ 298 ∷ 257 ∷ 513 ∷ 513 ∷ 468 ∷ 209
    ∷ 147 ∷ 381 ∷ 298 ∷ 257 ∷ 513 ∷ 513 ∷ 434 ∷ 210 ∷ 121 ∷ 47 ∷ 300 ∷ 257 ∷ 513 ∷ 513 ∷ 490 ∷ 211
    ∷ 457 ∷ 473 ∷ 300 ∷ 257 ∷ 513 ∷ 513 ∷ 452 ∷ 212 ∷ 407 ∷ 373 ∷ 302 ∷ 257 ∷ 513 ∷ 513 ∷ 470 ∷ 213
    ∷ 433 ∷ 441 ∷ 304 ∷ 257 ∷ 513 ∷ 513 ∷ 442 ∷ 214 ∷ 303 ∷ 357 ∷ 306 ∷ 257 ∷ 513 ∷ 513 ∷ 498 ∷ 215
    ∷ 41 ∷ 445 ∷ 308 ∷ 257 ∷ 513 ∷ 513 ∷ 428 ∷ 216 ∷ 421 ∷ 329 ∷ 308 ∷ 257 ∷ 513 ∷ 513 ∷ 498 ∷ 217
    ∷ 163 ∷ 377 ∷ 310 ∷ 257 ∷ 513 ∷ 513 ∷ 448 ∷ 218 ∷ 409 ∷ 333 ∷ 312 ∷ 257 ∷ 513 ∷ 513 ∷ 504 ∷ 219
    ∷ 415 ∷ 493 ∷ 312 ∷ 257 ∷ 513 ∷ 513 ∷ 428 ∷ 220 ∷ 429 ∷ 79 ∷ 314 ∷ 257 ∷ 513 ∷ 513 ∷ 488 ∷ 221
    ∷ 347 ∷ 71 ∷ 314 ∷ 257 ∷ 513 ∷ 513 ∷ 432 ∷ 222 ∷ 351 ∷ 413 ∷ 316 ∷ 257 ∷ 513 ∷ 513 ∷ 502 ∷ 223
    ∷ 51 ∷ 437 ∷ 318 ∷ 257 ∷ 513 ∷ 513 ∷ 340 ∷ 224 ∷ 383 ∷ 507 ∷ 318 ∷ 257 ∷ 513 ∷ 513 ∷ 342 ∷ 225
    ∷ 425 ∷ 77 ∷ 320 ∷ 257 ∷ 513 ∷ 513 ∷ 472 ∷ 226 ∷ 411 ∷ 73 ∷ 322 ∷ 257 ∷ 513 ∷ 513 ∷ 502 ∷ 227
    ∷ 361 ∷ 485 ∷ 322 ∷ 257 ∷ 513 ∷ 513 ∷ 424 ∷ 228 ∷ 299 ∷ 343 ∷ 324 ∷ 257 ∷ 513 ∷ 513 ∷ 476 ∷ 229
    ∷ 405 ∷ 311 ∷ 324 ∷ 257 ∷ 513 ∷ 513 ∷ 412 ∷ 230 ∷ 497 ∷ 477 ∷ 326 ∷ 257 ∷ 513 ∷ 513 ∷ 482 ∷ 231
    ∷ 323 ∷ 75 ∷ 328 ∷ 257 ∷ 513 ∷ 513 ∷ 132 ∷ 232 ∷ 307 ∷ 501 ∷ 328 ∷ 257 ∷ 513 ∷ 513 ∷ 478 ∷ 233
    ∷ 319 ∷ 419 ∷ 330 ∷ 257 ∷ 513 ∷ 513 ∷ 388 ∷ 234 ∷ 427 ∷ 505 ∷ 330 ∷ 257 ∷ 513 ∷ 513 ∷ 484 ∷ 235
    ∷ 453 ∷ 367 ∷ 332 ∷ 257 ∷ 513 ∷ 513 ∷ 424 ∷ 236 ∷ 171 ∷ 151 ∷ 336 ∷ 257 ∷ 513 ∷ 513 ∷ 260 ∷ 237
    ∷ 459 ∷ 89 ∷ 336 ∷ 257 ∷ 513 ∷ 513 ∷ 462 ∷ 238 ∷ 315 ∷ 467 ∷ 338 ∷ 257 ∷ 513 ∷ 513 ∷ 488 ∷ 239
    ∷ 335 ∷ 489 ∷ 340 ∷ 257 ∷ 513 ∷ 513 ∷ 382 ∷ 240 ∷ 119 ∷ 463 ∷ 342 ∷ 257 ∷ 513 ∷ 513 ∷ 508 ∷ 241
    ∷ 339 ∷ 471 ∷ 344 ∷ 257 ∷ 513 ∷ 513 ∷ 456 ∷ 242 ∷ 331 ∷ 355 ∷ 346 ∷ 257 ∷ 513 ∷ 513 ∷ 510 ∷ 243
    ∷ 443 ∷ 479 ∷ 346 ∷ 257 ∷ 513 ∷ 513 ∷ 480 ∷ 244 ∷ 423 ∷ 379 ∷ 348 ∷ 257 ∷ 513 ∷ 513 ∷ 506 ∷ 245
    ∷ 375 ∷ 359 ∷ 350 ∷ 257 ∷ 513 ∷ 513 ∷ 440 ∷ 246 ∷ 83 ∷ 363 ∷ 352 ∷ 257 ∷ 513 ∷ 513 ∷ 512 ∷ 247
    ∷ 327 ∷ 403 ∷ 354 ∷ 257 ∷ 513 ∷ 513 ∷ 462 ∷ 248 ∷ 435 ∷ 431 ∷ 358 ∷ 257 ∷ 513 ∷ 513 ∷ 504 ∷ 249
    ∷ 87 ∷ 371 ∷ 360 ∷ 257 ∷ 513 ∷ 513 ∷ 466 ∷ 250 ∷ 447 ∷ 455 ∷ 366 ∷ 257 ∷ 513 ∷ 513 ∷ 506 ∷ 251
    ∷ 439 ∷ 499 ∷ 370 ∷ 257 ∷ 513 ∷ 513 ∷ 470 ∷ 252 ∷ 503 ∷ 491 ∷ 372 ∷ 257 ∷ 513 ∷ 513 ∷ 450 ∷ 253
    ∷ 483 ∷ 91 ∷ 374 ∷ 257 ∷ 513 ∷ 513 ∷ 94 ∷ 254 ∷ 512 ∷ 487 ∷ 380 ∷ 257 ∷ 513 ∷ 513 ∷ 84 ∷ 255 ∷ 0
    ∷ 495 ∷ 510 ∷ 257 ∷ []

-- `Compression::huff`
unfoldable pub compression_huff : ConstHuff
unfolding const_huff
compression_huff = const_huff 2 loc_nums archived_nodes

-- `Decompression::huff`
unfoldable pub decompression_huff : ConstHuff
unfolding const_huff
decompression_huff = const_huff 2 loc_nums archived_nodes
