-- ===== src/Net.antt =====
-- kernel/net: the network protocols.
pub mod Checksum
pub mod Frames
pub mod Ipv4
pub mod Send
pub mod Udp
pub mod Exchange
pub mod Echo
pub mod Dns
pub mod Answers
pub mod Dotted
pub mod Queries
pub mod Replies
pub mod Tests
pub mod Tcp
pub mod Calls
pub mod Stream
pub mod StreamTests
pub mod Url
pub mod Get
pub mod BodyBounds
pub mod GetBounds
pub mod GetTests
pub mod Urls
pub mod UrlTests
pub mod Sums
pub mod Packets
pub mod Receive
