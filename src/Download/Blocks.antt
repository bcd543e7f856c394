-- ===== src/Download/Blocks.antt =====
-- What a message does to a download, and what a row of messages delivers.
use mohpc.Base.{
  ℕ, ◌+◌, ◌≤◌, ◌<◌, ◌≡◌, ◌≢◌, ◌⊎◌, inl, inr, sym, ap, subst, suc, ◌∙◌, arith, List, [], ◌∷◌, ◌++◌,
  append_assoc, append-nil, length, true, false, ok, err, Result-cases, add_size, add_u32, u32_mod,
}
use mohpc.Reliable.{add_command}
use mohpc.Download.{
  DownloadManager, DownloadError, unexpected_download, Environment, max_download_size,
  next_download_command, stop_command, send, process_download,
}

module _ (env : Environment) where
  open env use {Msg, read_ushort, read_integer, read_data, read_string}

  -- An exception delivers nothing to the handlers and leaves the size of what was downloaded; the
  -- next block is as before, or block 0. Of a download that nobody requested it says so, and the
  -- server is told to stop.
  pub process_download-throws :
      (msg : Msg) (d : DownloadManager) (e : DownloadError)
      → (process_download env msg d).0 ≡ err e
      → ((process_download env msg d).1.delivered ≡ d.delivered)
        × ((process_download env msg d).1.download_size ≡ d.download_size)
        × (((process_download env msg d).1.download_block ≡ d.download_block)
            ⊎ ((process_download env msg d).1.download_block ≡ 0))
        × ((d.download_requested ≡ true)
            ⊎ ((e ≡ unexpected_download) × ((process_download env msg d).1 ≡ send stop_command d)))
  unfolding process_download
  process_download-throws msg d e h =
      (ground (arith, h), ground (arith, h), ground (arith, h), ground (arith, h))

  -- A message holds the number, the size and the bytes of a block, and no handler minds them.
  pub record Carries (msg : Msg) (block : ℕ) (bytes : List ℕ) : Type 0 where
    pub after_block : Msg
    pub after_size : Msg
    pub after_data : Msg
    pub block_read : read_ushort msg ≡ ok (block, after_block)
    pub size_read : read_ushort after_block ≡ ok (length bytes, after_size)
    pub data_read : read_data (length bytes) after_size ≡ ok (bytes, after_data)
    pub some_bytes : 0 < length bytes
    pub fits : length bytes ≤ max_download_size
    pub kept : env.receive_interrupts bytes ≡ false

  -- The manager with one more block.
  abbrev pub with_block : List ℕ → DownloadManager → DownloadManager
  with_block bytes d = record d {
    delivered = d.delivered ++ bytes ∷ [];
    sequence = add_command (next_download_command ++ env.to_string d.download_block) d.sequence;
    download_size = add_size d.download_size (length bytes);
    download_block = add_u32 d.download_block 1;
  }

  process_download-block :
      (msg : Msg) (bytes : List ℕ) (d : DownloadManager)
      → d.download_requested ≡ true
      → d.download_block ≢ 0
      → Carries msg d.download_block bytes
      → process_download env msg d ≡ (ok tt, with_block bytes d)
  unfolding process_download
  process_download-block msg bytes d r n c =
      ground (arith, c.block_read, c.size_read, c.data_read, c.some_bytes, c.fits, c.kept)

  -- The messages of a row of blocks, from number `block` on.
  abbrev pub CarriesAll : ℕ → List (Msg × List ℕ) → Type 0
  CarriesAll block [] = Unit {0}
  CarriesAll block ((msg, bytes) ∷ rest) = Carries msg block bytes × CarriesAll (block + 1) rest

  unfoldable pub process_all : List (Msg × List ℕ) → DownloadManager → DownloadManager
  process_all [] d = d
  process_all ((msg, bytes) ∷ rest) d = process_all rest (process_download env msg d).1

  abbrev pub payloads : List (Msg × List ℕ) → List (List ℕ)
  payloads [] = []
  payloads ((msg, bytes) ∷ rest) = bytes ∷ payloads rest

  abbrev pub count : List (Msg × List ℕ) → ℕ
  count [] = 0
  count ((msg, bytes) ∷ rest) = suc (count rest)

  -- Of a requested download whose next block is download_block and not the first, a row of messages
  -- that carries the blocks from there on, with numbers below 2^32, each within the limit of 49152
  -- bytes and none refused by a handler, is delivered in order, block by block; the next block is
  -- then the one behind the row, and the download is still on.
  pub process_all-delivers :
      (row : List (Msg × List ℕ)) (d : DownloadManager)
      → d.download_requested ≡ true
      → d.download_block ≢ 0
      → d.download_block + count row < u32_mod
      → CarriesAll d.download_block row
      → ((process_all row d).delivered ≡ d.delivered ++ payloads row)
        × ((process_all row d).download_block ≡ d.download_block + count row)
        × ((process_all row d).download_requested ≡ true)
  unfolding process_all
  process_all-delivers [] d r n b c = (sym (append-nil d.delivered), omega arith, r)
  process_all-delivers ((msg, bytes) ∷ rest) d r n b c =
      let next : add_u32 d.download_block 1 ≡ d.download_block + 1 = omega arith in
      let (delivered, block, on) =
        process_all-delivers rest (with_block bytes d) r (omega arith) (omega arith)
          (subst (λ x. CarriesAll x rest) (sym next) c.1) in
      rw (ap (λ x. process_all rest x.1) (process_download-block msg bytes d r n c.0))
        (delivered ∙ append_assoc d.delivered (bytes ∷ []) (payloads rest), block ∙ omega arith, on)

  process_download_number :
      (msg m' : Msg) (n : ℕ) (d : DownloadManager)
      → read_ushort msg ≡ ok (n, m')
      → n < 65536
      → 65535 < d.download_block
      → (process_download env msg d).0 ≡ ok tt
      → ((process_download env msg d).1.download_block ≤ 1) × (n ≡ 0)
  unfolding process_download
  process_download_number msg m' n d e short past h = ground (arith, e)

  process_download_unread :
      (msg : Msg) (e : DownloadError) (d : DownloadManager)
      → read_ushort msg ≡ err e
      → (process_download env msg d).0 ≢ ok tt
  unfolding process_download
  process_download_unread msg e d p h = ground (arith, p)

  -- The number of a block is read as 16 bits, so past block 65535 a download is stuck: if such a
  -- number is expected, a message goes through only by starting the file anew.
  pub process_download-past_u16 :
      (msg : Msg) (d : DownloadManager)
      → ((m m' : Msg) (n : ℕ) → read_ushort m ≡ ok (n, m') → n < 65536)
      → 65535 < d.download_block
      → (process_download env msg d).0 ≡ ok tt
      → ((process_download env msg d).1.download_block ≤ 1)
        × ((m' : Msg) × (read_ushort msg ≡ ok (0, m')))
  unfolding process_download
  process_download-past_u16 msg d short past h = elim (Result-cases (read_ushort msg)) [
    | inl ((n, m'), e) ↦
        let (small, zero) = process_download_number msg m' n d e (short msg m' n e) past h in
        (small, (m', e ∙ ap (λ x. ok (x, m')) zero))
    | inr (e, p) ↦ absurd (process_download_unread msg e d p h)
  ]
