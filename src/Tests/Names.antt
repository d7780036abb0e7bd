-- ===== src/Tests/Names.antt =====
-- What is written, printed and accepted, at concrete texts.
use auction_server.Common.{arith, codes}
use auction_server.Database.Names.{start_info}
use auction_server.Database.Names.StartLine.{IsWord, StartWords, start_info-StartWords}
use auction_server.Tests.Worlds.{uid}

clock-IsWord : IsWord (codes "clock")
clock-IsWord = record { some_byte = λ e. absurd (ground arith); one_word = ground arith }

uid-IsWord : IsWord uid
uid-IsWord = record { some_byte = λ e. absurd (ground arith); one_word = ground arith }

file_name-IsWord : IsWord (codes "clock.png")
file_name-IsWord = record { some_byte = λ e. absurd (ground arith); one_word = ground arith }

start_info-StartWords_example :
    StartWords
      (start_info uid (codes "clock") (codes "clock.png") 20 3600 1700000000)
      uid
      (codes "clock")
      (codes "clock.png")
      20
      3600
      1700000000
start_info-StartWords_example =
    start_info-StartWords uid (codes "clock") (codes "clock.png") 20 3600 1700000000 uid-IsWord
      clock-IsWord file_name-IsWord
