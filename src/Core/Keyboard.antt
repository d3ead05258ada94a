-- ===== src/Core/Keyboard.antt =====
-- src/core/src/keyboard.c and its header: the serial interface (8251) of the keyboard.
-- `tx_callback` is an argument where it is called: it is given the byte, and may change both the
-- keyboard model behind it (its context `M`) and this interface; `none` is NULL.
pub mod Valid
pub mod Pending
pub mod Stream
pub mod Delivery
mod Tests
use ms.Base.{
  ℕ, ◌+◌, ◌-◌, ◌%◌, Bool, true, false, not, ◌&&◌, ◌||◌, Option, none, some, ◌==◌, leb, ltb,
  if◌then◌else◌, has_bit, set_bit, clear_bit, Bytes, store,
}

-- `ms0515_keyboard_t` without its callback.
pub record Keyboard : Type 0 where
  pub rx_data : ℕ
  pub tx_data : ℕ
  pub status : ℕ
  pub mode : ℕ
  pub command : ℕ
  pub rx_ready : Bool
  pub tx_ready : Bool
  pub init_step : ℕ
  pub fifo : Bytes
  pub fifo_head : ℕ
  pub fifo_tail : ℕ
  pub fifo_count : ℕ
  pub rx_delay : ℕ
  pub irq : Bool

-- `kbd_init`, and `kbd_reset`, which calls it. The callback stays installed.
unfoldable pub init : Keyboard
init = record {
  rx_data = 0;
  tx_data = 0;
  status = 0x05;
  mode = 0;
  command = 0;
  rx_ready = false;
  tx_ready = true;
  init_step = 0;
  fifo = λ _. 0;
  fifo_head = 0;
  fifo_tail = 0;
  fifo_count = 0;
  rx_delay = 0;
  irq = false;
}

-- `fifo_empty` and `fifo_full`
abbrev pub fifo_empty : Keyboard → Bool
fifo_empty k = k.fifo_count == 0

abbrev pub fifo_full : Keyboard → Bool
fifo_full k = leb 16 k.fifo_count

-- `fifo_push`: a byte that does not fit is dropped.
unfoldable pub fifo_push : Keyboard → ℕ → Keyboard
fifo_push k byte = if fifo_full k then k else record k {
  fifo = store k.fifo k.fifo_tail byte;
  fifo_tail = (k.fifo_tail + 1) % 16;
  fifo_count = k.fifo_count + 1;
}

-- `fifo_pop`: the byte, and the queue without it.
unfoldable pub fifo_pop : Keyboard → ℕ × Keyboard
fifo_pop k = if fifo_empty k then (0, k) else (
  k.fifo k.fifo_head,
  record k { fifo_head = (k.fifo_head + 1) % 16; fifo_count = k.fifo_count - 1 },
)

-- `update_status`: bit 1 RXRDY, bit 0 TXRDY, bit 2 TXEMPTY; the interrupt wants RxEN, bit 2 of the
-- command.
unfoldable pub update_status : Keyboard → Keyboard
update_status k =
    let s1 = if k.rx_ready then set_bit k.status 1 else clear_bit k.status 1 in
    let s2 = if k.tx_ready then set_bit s1 0 else clear_bit s1 0 in
    record k { status = set_bit s2 2; irq = k.rx_ready && has_bit k.command 2 }

-- The data register in `kbd_write`, before the byte is forwarded.
abbrev pub transmit : Keyboard → ℕ → Keyboard
transmit k value = record k { tx_data = value; tx_ready = true }

-- The command and mode register in `kbd_write`.
unfoldable pub write_control : Keyboard → ℕ → Keyboard
write_control k value =
    if k.init_step == 0
    then record k { mode = value; init_step = if value % 4 == 0 then 0 else 1 }
    else if has_bit value 6
    then update_status (record k { init_step = 0; command = 0; rx_ready = false; tx_ready = true })
    else if has_bit value 4
    then update_status
        (record k { command = value; status = clear_bit (clear_bit (clear_bit k.status 3) 4) 5 })
    else update_status (record k { command = value })

-- `kbd_write`
unfoldable pub write :
    {M : Type 0} → Option (ℕ → Keyboard × M → Keyboard × M) → Keyboard × M → ℕ → ℕ → Keyboard × M
write callback (k, ctx) reg value =
    if reg == 0
    then elim callback [
      | none ↦ (update_status (transmit k value), ctx)
      | some f ↦ let (k', ctx') = f value (transmit k value, ctx) in (update_status k', ctx')
    ]
    else (write_control k value, ctx)

-- `kbd_read`
unfoldable pub read : Keyboard → ℕ → ℕ × Keyboard
read k reg =
    if reg == 0 then (k.rx_data, update_status (record k { rx_ready = false })) else (k.status, k)

-- `kbd_push_scancode`
unfoldable pub push_scancode : Keyboard → ℕ → Keyboard
push_scancode k scancode =
    fifo_push
      (if fifo_empty k && not k.rx_ready && (k.rx_delay == 0) then record k { rx_delay = 8 } else k)
      scancode

-- `kbd_flush_fifo`
unfoldable pub flush_fifo : Keyboard → Keyboard
flush_fifo k =
    update_status (record k { fifo_head = 0; fifo_tail = 0; fifo_count = 0; rx_ready = false })

-- What `kbd_tick` does before it updates the status.
unfoldable pub receive : Keyboard → Keyboard
receive k =
    if not k.rx_ready && not (fifo_empty k)
    then if ltb 0 k.rx_delay
      then record k { rx_delay = k.rx_delay - 1 }
      else record (fifo_pop k).1 { rx_data = (fifo_pop k).0; rx_ready = true; rx_delay = 8 }
    else k

-- `kbd_tick`
unfoldable pub tick : Keyboard → Keyboard
tick k = update_status (receive k)
