-- ===== src/Tests/Programs.antt =====
-- The programs around the connection, and `trim`.
use restuarant_ordering_csf.Base.{some, codes}
use restuarant_ordering_csf.Message.{Message, MessageType, order_message}
use restuarant_ordering_csf.Util.{trim}
use restuarant_ordering_csf.Util.Trim.{Trimmed, trim-Trimmed}
use restuarant_ordering_csf.Tests.Data.{lunch}

abbrev announced : Message
announced = order_message MessageType.disp_order (some lunch)

trim-Trimmed_example : Trimmed (codes "  two words \n") (trim (codes "  two words \n"))
trim-Trimmed_example = trim-Trimmed (codes "  two words \n")
