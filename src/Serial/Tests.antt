-- ===== src/Serial/Tests.antt =====
-- The theorems on serial.c at a small machine.
use learning_osdev.Base.{refl, arith}
use learning_osdev.Serial.{init_serial, serial_write_char}
use learning_osdev.Serial.Line.{IsInitialised, IsSent, init_serial_lem, serial_write_char_lem}
use learning_osdev.Serial.Example.{sound, ports, uart, new_chip}

init_serial_lem_example : IsInitialised ports sound uart (init_serial ports new_chip)
unfolding new_chip uart
init_serial_lem_example = init_serial_lem ports sound uart new_chip refl

serial_write_char_lem_example :
    IsSent ports sound uart b'A' new_chip (serial_write_char ports 6 b'A' new_chip)
unfolding new_chip uart
serial_write_char_lem_example =
    serial_write_char_lem ports sound uart 6 b'A' new_chip refl refl (omega arith)
