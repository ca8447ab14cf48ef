-- ===== src/Service/Receipts.antt =====
-- What the till's printer and drawer get: `BuildHardwareReceipt` and `OpenCashDrawer`.
use kasirinaja.Prelude.{
  ℕ, String, List, [], ◌∷◌, ◌++◌, str_eq, mul64, trim_space, show_int, bytes, if◌then◌else◌,
}
use kasirinaja.Domain.{
  TransactionLine, Transaction, HardwareReceiptRequest, HardwareReceiptResponse,
  CashDrawerOpenRequest, CashDrawerOpenResponse,
}
use kasirinaja.Store.{invalid_transaction, Action, pure, raise_if, ◌>>=◌, ◌>>◌}
use kasirinaja.Memory.State.{Store}
use kasirinaja.Memory.Sales.{find_transaction_by_id}
use kasirinaja.Service.Texts.{Texts}
use Prim.Native.String.{◌++◌ as str_append}

-- `strings.Join(lines, "\n")`
unfoldable pub join_lines : List String → String
join_lines [] = ""
join_lines (line ∷ []) = line
join_lines (line ∷ next ∷ lines) = str_append line (str_append "\n" (join_lines (next ∷ lines)))

-- The bytes of the lines, each with its end.
unfoldable pub line_bytes : List String → List ℕ
line_bytes [] = []
line_bytes (line ∷ lines) = bytes line ++ (10 ∷ line_bytes lines)

module _ {F : Type 0} where
  unfoldable pub item_lines : List (TransactionLine F) → List String
  item_lines [] = []
  item_lines (item ∷ items) =
      str_append item.sku (str_append " x" (show_int item.qty))
      ∷ str_append "  " (show_int (mul64 item.unit_price_cents item.qty))
      ∷ item_lines items

  unfoldable pub receipt_lines : Texts F → Transaction F → List String
  unfolding item_lines
  receipt_lines texts tx =
      ("KasirinAja POS"
        ∷ "========================"
        ∷ str_append "TX: " tx.id
        ∷ str_append "Store: " tx.store_id
        ∷ str_append "Terminal: " tx.terminal_id
        ∷ str_append "Date: " (texts.show_moment tx.created_at)
        ∷ "------------------------"
        ∷ [])
      ++ (item_lines tx.items
          ++ ("------------------------"
              ∷ str_append "Subtotal : " (show_int tx.subtotal_cents)
              ∷ str_append "Diskon   : " (show_int tx.discount_cents)
              ∷ str_append "Pajak    : " (show_int tx.tax_cents)
              ∷ str_append "Total    : " (show_int tx.total_cents)
              ∷ str_append "Bayar    : " (show_int tx.cash_received_cents)
              ∷ str_append "Kembali  : " (show_int tx.change_cents)
              ∷ "========================"
              ∷ "Terima kasih"
              ∷ ""
              ∷ []))

  unfoldable pub build_hardware_receipt :
      Texts F → HardwareReceiptRequest → Action (Store F) HardwareReceiptResponse
  unfolding receipt_lines join_lines line_bytes
  build_hardware_receipt texts request = do
    let id = trim_space request.transaction_id
    raise_if (str_eq id "") invalid_transaction
    tx ← find_transaction_by_id id
    let lines = receipt_lines texts tx
    pure (record {
      transaction_id = tx.id;
      escpos_base64 =
          texts.base64
            ((0x1b ∷ 0x40 ∷ []) ++ (line_bytes lines ++ (0x1d ∷ 0x56 ∷ 0x41 ∷ 0x10 ∷ [])));
      preview_text = join_lines lines;
      file_name = str_append "receipt-" (str_append tx.id ".bin");
    })

  unfoldable pub open_cash_drawer :
      Texts F → CashDrawerOpenRequest → Action (Store F) CashDrawerOpenResponse
  open_cash_drawer texts request =
      let terminal = trim_space request.terminal_id in
      pure (record {
        terminal_id = if str_eq terminal "" then "main-terminal" else terminal;
        command_base64 = texts.base64 (0x1b ∷ 0x70 ∷ 0x00 ∷ 0x19 ∷ 0xfa ∷ []);
        note = "Send this ESC/POS pulse command via local printer bridge to open cash drawer.";
      })
